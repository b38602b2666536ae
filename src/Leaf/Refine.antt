-- ===== src/Leaf/Refine.antt =====
-- Set, Get and Remove of store/leaf.go, against a list of items.
mod Search
mod Items
unfoldable pub use Search.{encode, same_key, index_of, hash_bytes}
unfoldable pub use Items.{item_for, with_item, without_item}
use gobeansdb.Base.{
  ℕ, suc, ◌+◌, ◌*◌, ◌≤◌, ◌≡◌, refl, sym, ap, ◌∙◌, arith, Bool, true, false, inl, inr, Bool-cases,
  Option-cases, Option, none, some, List, [], ◌∷◌, ◌++◌, length, length-append, take, drop,
  take-append, drop-append, take-all, drop-beyond, if◌then◌else◌, All,
}
use gobeansdb.Base.Int.{ℤ, pos, negsuc}
use gobeansdb.Record.{Position}
use gobeansdb.Leaf.{
  HTreeItem, item_to_bytes, bytes_to_item, find_in_bytes, write_at, leaf_set, leaf_remove, leaf_get,
  set_found, get_found, remove_found, remove_item, removes, empty_item,
}
use gobeansdb.Leaf.Item.{IsStorable, overlay, length-item_to_bytes, bytes_to_item-item_to_bytes}
use Search.{
  entry_bytes, length-hash_bytes, length-entry_bytes, length-encode, Finds, find_in_bytes-encode,
}
use Items.{Split, Split-at, none_for}
use mathlib.Core.List.{append_assoc, append-nil}
use mathlib.Core.Path.{subst}
use mathlib.Core.Option as Opt

pub encode-append :
    (k : ℕ) (xs ys : List HTreeItem) → encode k (xs ++ ys) ≡ encode k xs ++ encode k ys
unfolding encode
encode-append k [] ys = refl
encode-append k (x ∷ xs) ys =
    ap (λ t. entry_bytes k x ++ t) (encode-append k xs ys)
    ∙ sym (append_assoc (entry_bytes k x) (encode k xs) (encode k ys))

abbrev pub AllStorable : List HTreeItem → Type 0
AllStorable = All IsStorable

-- The old item that an operation reports, and whether there was one.
abbrev pub got : Option HTreeItem → HTreeItem → HTreeItem × Bool
got none base = (base, false)
got (some e) base = (overlay e base, true)

module _ (k : ℕ) (short : k ≤ 8) where
  -- The bytes at the place of a split.
  module _ (front back : List HTreeItem) (here : HTreeItem) where
    abbrev leaf_at : List ℕ
    leaf_at = encode k (front ++ (here ∷ back))

    shape : leaf_at ≡ encode k front ++ (entry_bytes k here ++ encode k back)
    shape = encode-append k front (here ∷ back) ∙ unfold encode in refl

    start : length front * (k + 11) ≡ length (encode k front)
    start = sym (length-encode k short front)

    before : take (length front * (k + 11)) leaf_at ≡ encode k front
    before = ap (take (length front * (k + 11))) shape ∙ take-append (encode k front) _ _ start

    item_bytes : drop (length front * (k + 11) + k) leaf_at ≡ item_to_bytes here ++ encode k back
    item_bytes =
        ap (drop (length front * (k + 11) + k)) (
          shape
          ∙ ap (λ t. encode k front ++ t) (append_assoc (hash_bytes k here.key_hash) _ _)
          ∙ sym (append_assoc (encode k front) (hash_bytes k here.key_hash) _))
        ∙ drop-append (encode k front ++ hash_bytes k here.key_hash) _ _ (
            omega (
              arith,
              start,
              length-append (encode k front) (hash_bytes k here.key_hash),
              length-hash_bytes k short here.key_hash,
            ))

    behind : drop (length front * (k + 11) + k + 11) leaf_at ≡ encode k back
    behind =
        ap (drop (length front * (k + 11) + k + 11))
          (shape ∙ sym (append_assoc (encode k front) (entry_bytes k here) (encode k back)))
        ∙ drop-append (encode k front ++ entry_bytes k here) _ _ (
            omega (
              arith,
              start,
              length-append (encode k front) (entry_bytes k here),
              length-entry_bytes k short here,
            ))

  here-IsStorable :
      (front back : List HTreeItem) (here : HTreeItem)
      → AllStorable (front ++ (here ∷ back))
      → IsStorable here
  here-IsStorable [] back here s = s.0
  here-IsStorable (x ∷ front) back here s = here-IsStorable front back here s.1

  -- The item at the place of a split.
  read_here :
      (front back : List HTreeItem) (here base : HTreeItem)
      → AllStorable (front ++ (here ∷ back))
      → bytes_to_item (drop (length front * (k + 11) + k) (leaf_at front back here)) base
        ≡ some (overlay here base)
  read_here front back here base s =
      ap (λ b. bytes_to_item b base) (item_bytes front back here)
      ∙ bytes_to_item-item_to_bytes here base (encode k back) (here-IsStorable front back here s)

  written :
      (h : ℕ) (item : HTreeItem) (front back : List HTreeItem)
      → encode k front ++ (hash_bytes k h ++ (item_to_bytes item ++ encode k back))
        ≡ encode k (front ++ (record item { key_hash = h } ∷ back))
  written h item front back =
      ap (λ t. encode k front ++ t)
        (sym (append_assoc (hash_bytes k h) (item_to_bytes item) (encode k back)))
      ∙ sym (
          encode-append k front (record item { key_hash = h } ∷ back)
          ∙ unfold encode item_to_bytes in refl)

  module _ (front back : List HTreeItem) (here : HTreeItem)
      (s : AllStorable (front ++ (here ∷ back))) where
    get_at :
        (base : HTreeItem)
        → get_found k (leaf_at front back here) base (pos (length front * (k + 11)))
          ≡ some (overlay here base, true)
    unfolding get_found
    get_at base = ap (Opt.map (λ m. (m, true))) (read_here front back here base s)

    set_at :
        (h : ℕ) (item : HTreeItem)
        → set_found k (leaf_at front back here) h item (pos (length front * (k + 11)))
          ≡ some (
            encode k (front ++ (record item { key_hash = h } ∷ back)),
            overlay here empty_item,
            true,
          )
    unfolding set_found write_at
    set_at h item =
        rw (read_here front back here empty_item s, before front back here, behind front back here)
          (λ i. some (written h item front back i, overlay here empty_item, true))

    remove_at :
        (old_pos : Position)
        → remove_found k (leaf_at front back here) old_pos (pos (length front * (k + 11)))
          ≡ some (
            if removes old_pos here then encode k (front ++ back) else leaf_at front back here,
            overlay here empty_item,
            removes old_pos here,
          )
    unfolding remove_found remove_item
    remove_at old_pos =
        rw
          (
            read_here front back here empty_item s,
            before front back here,
            behind front back here,
            ← encode-append k front back,
          )
          (elim (Bool-cases (removes old_pos here)) [ inl yes_ ↦ rw yes_ | inr no_ ↦ rw no_ ])

  module _ (h : ℕ) (es : List HTreeItem) (s : AllStorable es) where
    place_of :
        (j : ℕ) (p : Split k h j es)
        → index_of k h es ≡ some j
        → find_in_bytes k (encode k es) h ≡ pos (length p.front * (k + 11))
    place_of j p e =
        subst (Finds k short (find_in_bytes k (encode k es) h)) e
          (find_in_bytes-encode k short h es)
        ∙ ap (λ (t : ℕ). pos (t * (k + 11))) (sym p.place)

    no_place : index_of k h es ≡ none → Finds k short (find_in_bytes k (encode k es) h) none
    no_place e =
        subst (Finds k short (find_in_bytes k (encode k es) h)) e
          (find_in_bytes-encode k short h es)

    -- On the bytes of a list of storable items, with at most eight bytes of each hash, `Get` finds the
    -- first item for the hash, and reads its fields.
    pub leaf_get-encode :
        (base : HTreeItem) → leaf_get k (encode k es) h base ≡ some (got (item_for k h es) base)
    unfolding leaf_get
    leaf_get-encode base = elim (Option-cases (index_of k h es)) [
      | inl gone ↦
          let (m, missing) = no_place gone in
          rw (missing, (none_for k h es base gone).0) (unfold get_found in refl)
      | inr (j, there) ↦
          let p = Split-at k h j es there in
          ap (get_found k (encode k es) base) (place_of j p there)
          ∙ (λ i. get_found k (encode k (p.whole i)) base (pos (length p.front * (k + 11))))
          ∙ get_at p.front p.back p.here (subst AllStorable p.whole s) base
          ∙ λ i. some (got (sym p.found i) base)
    ]

    appends :
        (item : HTreeItem)
        → write_at k (encode k es) (length (encode k es)) h item
          ≡ encode k (es ++ (record item { key_hash = h } ∷ []))
    unfolding write_at
    appends item =
        rw
          (
            take-all (encode k es),
            drop-beyond (encode k es) (length (encode k es) + k + 11) (omega arith),
          )
          (unfold encode in written h item es [])

    -- On the bytes of a list of storable items, with at most eight bytes of each hash, `Set` replaces the
    -- first item for the hash, or appends one, and reports the old item.
    pub leaf_set-encode :
        (item : HTreeItem)
        → leaf_set k (encode k es) h item
          ≡ some (
            encode k (with_item k h item es),
            (got (item_for k h es) empty_item).0,
            (got (item_for k h es) empty_item).1,
          )
    unfolding leaf_set
    leaf_set-encode item = elim (Option-cases (index_of k h es)) [
      | inl gone ↦
          let (m, missing) = no_place gone in
          let (absent, appended, _) = none_for k h es item gone in
          rw (missing, absent, appended)
            (unfold set_found in λ i. some (appends item i, empty_item, false))
      | inr (j, there) ↦
          let p = Split-at k h j es there in
          ap (set_found k (encode k es) h item) (place_of j p there)
          ∙ (λ i. set_found k (encode k (p.whole i)) h item (pos (length p.front * (k + 11))))
          ∙ set_at p.front p.back p.here (subst AllStorable p.whole s) h item
          ∙ λ i. some (
            encode k (sym (p.replaced item) i),
            (got (sym p.found i) empty_item).0,
            (got (sym p.found i) empty_item).1,
          )
    ]

    -- On the bytes of a list of storable items, with at most eight bytes of each hash, `Remove` takes out
    -- the first item for the hash if its offset is the given one, or the given chunk is -1, and reports
    -- the old item.
    pub leaf_remove-encode :
        (old_pos : Position)
        → leaf_remove k (encode k es) h old_pos
          ≡ some (elim (item_for k h es) [
            | none ↦ (encode k es, empty_item, false)
            | some e ↦ (
              if removes old_pos e then encode k (without_item k h es) else encode k es,
              overlay e empty_item,
              removes old_pos e,
            )
          ])
    unfolding leaf_remove
    leaf_remove-encode old_pos = elim (Option-cases (index_of k h es)) [
      | inl gone ↦
          let (m, missing) = no_place gone in
          rw (missing, (none_for k h es empty_item gone).0) (unfold remove_found in refl)
      | inr (j, there) ↦
          let p = Split-at k h j es there in
          ap (remove_found k (encode k es) old_pos) (place_of j p there)
          ∙ (λ i. remove_found k (encode k (p.whole i)) old_pos (pos (length p.front * (k + 11))))
          ∙ remove_at p.front p.back p.here (subst AllStorable p.whole s) old_pos
          ∙ rw (p.found, p.removed)
              (λ i. some (
                if removes old_pos p.here
                    then encode k (p.front ++ p.back)
                    else encode k (sym p.whole i),
                overlay p.here empty_item,
                removes old_pos p.here,
              ))
    ]
