-- ===== src/Hint/Newest.antt =====
-- `Set` and `Get` of the hint buffer of store/hint.go, over the calls that lead to a buffer.
use gobeansdb.Base.{
  ℕ, suc, ◌<◌, ◌≤◌, ◌≡◌, ◌≢◌, refl, sym, ap, ◌∙◌, arith, Bool, true, false, ◌&&◌, inl, inr,
  Bool-cases, Option, none, some, List, length, leb, ◌==◌, if◌then◌else◌, bytes_eq, bytes_eq_refl,
  bytes_eq_iff, get_or-set_self, get_or-set, ==_iff, length-set, replicate,
}
use gobeansdb.Collision.{HintItem}
use gobeansdb.Hint.{
  HintBuffer, new_hint_buffer, key_at, slot, in_keys, index_from, index_of, item_from, get_hint,
  put_in_keys, keys_of, single_key, put_collisions, store_at, store_found, set_hint, with_items,
  with_keys, collides,
}
use mathlib.Core.Bool.{false≢true}
use mathlib.Core.Option.{some_inj}
use mathlib.Core.Path.{subst}

-- The item in a slot: of the given hash, and of the given key.
record Filled (h : HintBuffer) (n keyhash idx : ℕ) : Type 0 where
  pub item : HintItem
  pub below : idx < n
  pub inside : idx < length h.items
  pub there : slot h idx ≡ some item
  pub hash : item.meta.key_hash ≡ keyhash

record Inv (h : HintBuffer) (n : ℕ) : Type 0 where
  pub first : (keyhash idx : ℕ) → h.index keyhash ≡ some idx → Filled h n keyhash idx
  pub inner :
      (keyhash : ℕ) (keys : List ℕ → Option ℕ) (key : List ℕ) (idx : ℕ)
      → h.collisions keyhash ≡ some keys
      → keys key ≡ some idx
      → (f : Filled h n keyhash idx) × (f.item.key ≡ key)
  pub top :
      (keyhash : ℕ) (keys : List ℕ → Option ℕ) (idx : ℕ) (it : HintItem)
      → h.collisions keyhash ≡ some keys
      → h.index keyhash ≡ some idx
      → slot h idx ≡ some it
      → keys it.key ≡ some idx
  pub nothing : (keyhash : ℕ) → h.index keyhash ≡ none → h.collisions keyhash ≡ none

-- Where a key's item is.
located :
    (h : HintBuffer) (n keyhash : ℕ) (key : List ℕ) (idx : ℕ)
    → Inv h n
    → index_of h keyhash key ≡ some idx
    → (f : Filled h n keyhash idx) × (f.item.key ≡ key)
unfolding index_of index_from
located h n keyhash key idx inv e = go (h.index keyhash) refl e
  where
    inner_go :
        (c : Option (List ℕ → Option ℕ))
        → h.collisions keyhash ≡ c
        → in_keys c key ≡ some idx
        → (f : Filled h n keyhash idx) × (f.item.key ≡ key)
    inner_go none q p = cc
    inner_go (some keys) q p = inv.inner keyhash keys key idx q p

    same_key : (f : Filled h n keyhash idx) → key_at (slot h idx) key ≡ true → f.item.key ≡ key
    same_key f p = sym ((bytes_eq_iff key f.item.key).0 (ap (λ s. key_at s key) (sym f.there) ∙ p))

    go :
        (o : Option ℕ)
        → h.index keyhash ≡ o
        → index_from h keyhash key o ≡ some idx
        → (f : Filled h n keyhash idx) × (f.item.key ≡ key)
    go none q p = cc
    go (some i) q p = elim (Bool-cases (key_at (slot h i) key)) [
      | inr off ↦ inner_go (h.collisions keyhash) refl (rw off at p)
      | inl on ↦
          let same : i ≡ idx = some_inj.0 (rw on at p) in
          let f = inv.first keyhash idx (q ∙ ap some same) in
          (f, same_key f (ap (λ j. key_at (slot h j) key) (sym same) ∙ on))
    ]

bytes_eq_flip : (a b : List ℕ) → bytes_eq a b ≡ false → bytes_eq b a ≡ false
bytes_eq_flip a b e = elim (Bool-cases (bytes_eq b a)) [
  | inr off ↦ off
  | inl on ↦ absurd (false≢true (sym e ∙ (bytes_eq_iff a b).1 (sym ((bytes_eq_iff b a).0 on))))
]

bytes_eq_differ : (a b : List ℕ) → bytes_eq a b ≡ false → a ≢ b
bytes_eq_differ a b e p = false≢true (sym e ∙ (bytes_eq_iff a b).1 p)

-- A place for an item: other keys of its hash are found by the inner map, and their items elsewhere.
record IsSpot (h : HintBuffer) (n m : ℕ) (it : HintItem) (c : Bool) (idx : ℕ) : Type 0 where
  pub inside : idx < length h.items
  pub below : idx < m
  pub grows : n ≤ m
  pub others :
      (key : List ℕ)
      → bytes_eq key it.key ≡ false
      → index_of h it.meta.key_hash key ≡ in_keys (h.collisions it.meta.key_hash) key
  pub apart_hash : (keyhash i : ℕ) → Filled h n keyhash i → it.meta.key_hash ≢ keyhash → idx ≢ i
  pub apart_key :
      (keyhash i : ℕ) (f : Filled h n keyhash i) → bytes_eq f.item.key it.key ≡ false → idx ≢ i
  pub kept :
      (keys : List ℕ → Option ℕ)
      → c ≡ false
      → h.collisions it.meta.key_hash ≡ some keys
      → keys it.key ≡ some idx

module _ (h : HintBuffer) (it : HintItem) (size : ℕ) (c : Bool) (idx n m : ℕ) (inv : Inv h n)
    (spot : IsSpot h n m it c idx) where
  abbrev after : HintBuffer
  after = store_at h it size c idx

  slot_other : (i : ℕ) → idx ≢ i → slot after i ≡ slot h i
  unfolding store_at
  slot_other i apart = get_or-set h.items idx i (some it) none apart

  slot_self : slot after idx ≡ some it
  unfolding store_at
  slot_self = get_or-set_self h.items idx (some it) none spot.inside

  index_self : after.index it.meta.key_hash ≡ some idx
  unfolding store_at
  index_self = rw ((==_iff it.meta.key_hash it.meta.key_hash).1 refl) refl

  index_other :
      (keyhash : ℕ) → (it.meta.key_hash == keyhash) ≡ false → after.index keyhash ≡ h.index keyhash
  unfolding store_at
  index_other keyhash e = rw e refl

  collisions_other :
      (keyhash : ℕ)
      → (it.meta.key_hash == keyhash) ≡ false
      → after.collisions keyhash ≡ h.collisions keyhash
  unfolding store_at
  collisions_other keyhash e = elim (Bool-cases c) [
    | inl on ↦ rw (on, e) refl
    | inr off ↦ rw off refl
  ]

  keys_other :
      (key : List ℕ)
      → bytes_eq it.key key ≡ false
      → in_keys (after.collisions it.meta.key_hash) key
        ≡ in_keys (h.collisions it.meta.key_hash) key
  unfolding store_at
  keys_other key e = elim (Bool-cases c) [
    | inl on ↦ rw (on, (==_iff it.meta.key_hash it.meta.key_hash).1 refl, e) refl
    | inr off ↦ rw off refl
  ]

  get_self : (get_hint after it.meta.key_hash it.key).0 ≡ some it
  unfolding get_hint index_of index_from
  get_self = rw (index_self, slot_self, bytes_eq_refl it.key) slot_self

  index_of_same :
      (key : List ℕ)
      → bytes_eq key it.key ≡ false
      → bytes_eq it.key key ≡ false
      → index_of after it.meta.key_hash key ≡ in_keys (h.collisions it.meta.key_hash) key
  unfolding index_of index_from
  index_of_same key e e' = rw (index_self, slot_self, e) (keys_other key e')

  other_hash : (keyhash : ℕ) → (it.meta.key_hash == keyhash) ≡ false → it.meta.key_hash ≢ keyhash
  other_hash keyhash e p = false≢true (sym e ∙ (==_iff it.meta.key_hash keyhash).1 p)

  index_of_other :
      (keyhash : ℕ) (key : List ℕ)
      → (it.meta.key_hash == keyhash) ≡ false
      → index_of after keyhash key ≡ index_of h keyhash key
  unfolding index_of index_from
  index_of_other keyhash key e =
      ap (index_from after keyhash key) (index_other keyhash e) ∙ go (h.index keyhash) refl
    where
      go :
          (o : Option ℕ)
          → h.index keyhash ≡ o
          → index_from after keyhash key o ≡ index_from h keyhash key o
      go none q = refl
      go (some i) q =
          rw
            (
              slot_other i
                  (spot.apart_hash keyhash i (inv.first keyhash i q) (other_hash keyhash e)),
              collisions_other keyhash e,
            )
            refl

  -- Another key of the same hash.
  get_same_hash :
      (key : List ℕ)
      → bytes_eq key it.key ≡ false
      → bytes_eq it.key key ≡ false
      → (get_hint after it.meta.key_hash key).0 ≡ (get_hint h it.meta.key_hash key).0
  unfolding get_hint
  get_same_hash key e e' =
      ap (item_from after) (step ∙ sym (spot.others key e))
      ∙ go (index_of h it.meta.key_hash key) refl
    where
      step : index_of after it.meta.key_hash key ≡ in_keys (h.collisions it.meta.key_hash) key
      step = index_of_same key e e'

      go : (o : Option ℕ) → index_of h it.meta.key_hash key ≡ o → item_from after o ≡ item_from h o
      go none q = refl
      go (some i) q =
          let (f, same) = located h n it.meta.key_hash key i inv q in
          slot_other i (spot.apart_key it.meta.key_hash i f (ap (λ k. bytes_eq k it.key) same ∙ e))

  -- A key of another hash.
  get_other_hash :
      (keyhash : ℕ) (key : List ℕ)
      → (it.meta.key_hash == keyhash) ≡ false
      → (get_hint after keyhash key).0 ≡ (get_hint h keyhash key).0
  unfolding get_hint
  get_other_hash keyhash key e =
      ap (item_from after) (index_of_other keyhash key e) ∙ go (index_of h keyhash key) refl
    where
      go : (o : Option ℕ) → index_of h keyhash key ≡ o → item_from after o ≡ item_from h o
      go none q = refl
      go (some i) q =
          slot_other i
            (spot.apart_hash keyhash i (located h n keyhash key i inv q).0 (other_hash keyhash e))

  filled_self : Filled after m it.meta.key_hash idx
  unfolding store_at
  filled_self = record {
    item = it;
    below = spot.below;
    inside = omega (arith, spot.inside, length-set h.items idx (some it));
    there = slot_self;
    hash = refl;
  }

  filled_other : (keyhash i : ℕ) → idx ≢ i → Filled h n keyhash i → Filled after m keyhash i
  unfolding store_at
  filled_other keyhash i apart f = record {
    item = f.item;
    below = omega (arith, f.below, spot.grows);
    inside = omega (arith, f.inside, length-set h.items idx (some it));
    there = slot_other i apart ∙ f.there;
    hash = f.hash;
  }

  first_after : (keyhash i : ℕ) → after.index keyhash ≡ some i → Filled after m keyhash i
  first_after keyhash i e = elim (Bool-cases (it.meta.key_hash == keyhash)) [
    | inl on ↦
        let same = (==_iff it.meta.key_hash keyhash).0 on in
        let at : idx ≡ i = some_inj.0 (sym index_self ∙ ap after.index same ∙ e) in
        coe 0 1 (j. Filled after m (same j) (at j)) filled_self
    | inr off ↦
        let f = inv.first keyhash i (sym (index_other keyhash off) ∙ e) in
        filled_other keyhash i (spot.apart_hash keyhash i f (other_hash keyhash off)) f
  ]

  keys_self :
      (key : List ℕ)
      → c ≡ true
      → bytes_eq it.key key ≡ true
      → in_keys (after.collisions it.meta.key_hash) key ≡ some idx
  unfolding store_at
  keys_self key on e = rw (on, (==_iff it.meta.key_hash it.meta.key_hash).1 refl, e) refl

  collisions_kept : c ≡ false → after.collisions it.meta.key_hash ≡ h.collisions it.meta.key_hash
  unfolding store_at
  collisions_kept off = rw off refl

  inner_old :
      (key : List ℕ) (i : ℕ)
      → in_keys (h.collisions it.meta.key_hash) key ≡ some i
      → (f : Filled h n it.meta.key_hash i) × (f.item.key ≡ key)
  inner_old key i e = go (h.collisions it.meta.key_hash) refl e
    where
      go :
          (o : Option (List ℕ → Option ℕ))
          → h.collisions it.meta.key_hash ≡ o
          → in_keys o key ≡ some i
          → (f : Filled h n it.meta.key_hash i) × (f.item.key ≡ key)
      go none p q = cc
      go (some keys) p q = inv.inner it.meta.key_hash keys key i p q

  filled_at : (i : ℕ) → idx ≡ i → (f : Filled after m it.meta.key_hash i) × (f.item.key ≡ it.key)
  unfolding filled_self
  filled_at i at =
      coe 0 1 (j. (f : Filled after m it.meta.key_hash (at j)) × (f.item.key ≡ it.key))
        (filled_self, refl)

  moved_on :
      (keyhash i : ℕ) (key : List ℕ)
      → idx ≢ i
      → (f : Filled h n keyhash i) × (f.item.key ≡ key)
      → (f : Filled after m keyhash i) × (f.item.key ≡ key)
  unfolding filled_other
  moved_on keyhash i key apart (f, same) = (filled_other keyhash i apart f, same)

  -- An entry of the inner map of the item's hash.
  inner_same :
      (key : List ℕ) (i : ℕ)
      → in_keys (after.collisions it.meta.key_hash) key ≡ some i
      → (f : Filled after m it.meta.key_hash i) × (f.item.key ≡ key)
  inner_same key i e = elim (Bool-cases (bytes_eq it.key key)) [
    | inr off ↦
        let old = inner_old key i (sym (keys_other key off) ∙ e) in
        moved_on it.meta.key_hash i key
          (spot.apart_key it.meta.key_hash i old.0
            (ap (λ k. bytes_eq k it.key) old.1 ∙ bytes_eq_flip it.key key off))
          old
    | inl on ↦
        let same_key = (bytes_eq_iff it.key key).0 on in
        elim (Bool-cases (idx == i)) [
          | inl at ↦ let (f, same) = filled_at i ((==_iff idx i).0 at) in (f, same ∙ same_key)
          | inr apart ↦
              let differ : idx ≢ i = λ p. false≢true (sym apart ∙ (==_iff idx i).1 p) in
              elim (Bool-cases c) [
                | inl yes_c ↦ absurd (differ (some_inj.0 (sym (keys_self key yes_c on) ∙ e)))
                | inr no_c ↦
                    moved_on it.meta.key_hash i key differ
                      (inner_old key i (ap (λ m. in_keys m key) (sym (collisions_kept no_c)) ∙ e))
              ]
        ]
  ]

  inner_after :
      (keyhash : ℕ) (keys : List ℕ → Option ℕ) (key : List ℕ) (i : ℕ)
      → after.collisions keyhash ≡ some keys
      → keys key ≡ some i
      → (f : Filled after m keyhash i) × (f.item.key ≡ key)
  inner_after keyhash keys key i p q = elim (Bool-cases (it.meta.key_hash == keyhash)) [
    | inr off ↦
        let old = inv.inner keyhash keys key i (sym (collisions_other keyhash off) ∙ p) q in
        moved_on keyhash i key (spot.apart_hash keyhash i old.0 (other_hash keyhash off)) old
    | inl on ↦
        let same = (==_iff it.meta.key_hash keyhash).0 on in
        subst (λ k. (f : Filled after m k i) × (f.item.key ≡ key)) same
          (inner_same key i (ap (λ m. in_keys m key) (ap after.collisions same ∙ p) ∙ q))
  ]

  top_self :
      (keys : List ℕ → Option ℕ)
      → after.collisions it.meta.key_hash ≡ some keys
      → keys it.key ≡ some idx
  top_self keys p = elim (Bool-cases c) [
    | inl yes_c ↦ ap (λ m. in_keys m it.key) (sym p) ∙ keys_self it.key yes_c (bytes_eq_refl it.key)
    | inr no_c ↦ spot.kept keys no_c (sym (collisions_kept no_c) ∙ p)
  ]

  top_after :
      (keyhash : ℕ) (keys : List ℕ → Option ℕ) (i : ℕ) (itm : HintItem)
      → after.collisions keyhash ≡ some keys
      → after.index keyhash ≡ some i
      → slot after i ≡ some itm
      → keys itm.key ≡ some i
  top_after keyhash keys i itm p q r = elim (Bool-cases (it.meta.key_hash == keyhash)) [
    | inr off ↦
        let f = inv.first keyhash i (sym (index_other keyhash off) ∙ q) in
        let apart = spot.apart_hash keyhash i f (other_hash keyhash off) in
        inv.top keyhash keys i itm (sym (collisions_other keyhash off) ∙ p)
          (sym (index_other keyhash off) ∙ q) (sym (slot_other i apart) ∙ r)
    | inl on ↦
        let same = (==_iff it.meta.key_hash keyhash).0 on in
        let at : idx ≡ i = some_inj.0 (sym index_self ∙ ap after.index same ∙ q) in
        let item_same : it ≡ itm = some_inj.0 (sym slot_self ∙ ap (slot after) at ∙ r) in
        ap (λ x. keys x.key) (sym item_same)
        ∙ top_self keys (ap after.collisions same ∙ p)
        ∙ ap some at
  ]

  nothing_after : (keyhash : ℕ) → after.index keyhash ≡ none → after.collisions keyhash ≡ none
  nothing_after keyhash e = elim (Bool-cases (it.meta.key_hash == keyhash)) [
    | inl on ↦ absurd (
        none_not_some
          (sym e ∙ ap after.index (sym ((==_iff it.meta.key_hash keyhash).0 on)) ∙ index_self))
    | inr off ↦
        collisions_other keyhash off ∙ inv.nothing keyhash (sym (index_other keyhash off) ∙ e)
  ]
    where
      none_not_some : ◌≢◌ {A = Option ℕ} none (some idx)
      none_not_some p = cc

  store_at-Inv : Inv after m
  store_at-Inv = record {
    first = first_after;
    inner = inner_after;
    top = top_after;
    nothing = nothing_after;
  }

-- What a key's item is after another was set.
abbrev pub or_set : HintItem → ℕ → List ℕ → Option HintItem → Option HintItem
or_set it keyhash key old =
    if (it.meta.key_hash == keyhash) && bytes_eq it.key key then some it else old

get-store_at :
    (h : HintBuffer) (it : HintItem) (size : ℕ) (c : Bool) (idx n m : ℕ) (inv : Inv h n)
    (spot : IsSpot h n m it c idx) (keyhash : ℕ) (key : List ℕ)
    → (get_hint (store_at h it size c idx) keyhash key).0
      ≡ or_set it keyhash key (get_hint h keyhash key).0
get-store_at h it size c idx n m inv spot keyhash key =
    elim (Bool-cases (it.meta.key_hash == keyhash)) [
      | inr off ↦ rw off (get_other_hash h it size c idx n m inv spot keyhash key off)
      | inl on ↦
          let same = (==_iff it.meta.key_hash keyhash).0 on in
          elim (Bool-cases (bytes_eq it.key key)) [
            | inr off ↦
                rw (on, off)
                  (subst (λ k. (get_hint (store_at h it size c idx) k key).0 ≡ (get_hint h k key).0)
                    same
                    (get_same_hash h it size c idx n m inv spot key (bytes_eq_flip it.key key off)
                      off))
            | inl key_on ↦
                rw (on, key_on)
                  ((λ i.
                      (get_hint (store_at h it size c idx) (sym same i)
                        (sym ((bytes_eq_iff it.key key).0 key_on) i)).0)
                    ∙ get_self h it size c idx n m inv spot)
          ]
    ]

-- Two slots of different items.
apart_items :
    (h : HintBuffer) (i j : ℕ) (a b : HintItem)
    → slot h i ≡ some a
    → slot h j ≡ some b
    → i ≡ j
    → a ≡ b
apart_items h i j a b p q e = some_inj.0 (sym p ∙ ap (slot h) e ∙ q)

module _ (g : HintBuffer) (n : ℕ) (it : HintItem) (inv : Inv g n) where
  -- The place of a new item.
  fresh-IsSpot :
      (c : Bool)
      → n < length g.items
      → ((key : List ℕ)
          → bytes_eq key it.key ≡ false
          → index_of g it.meta.key_hash key ≡ in_keys (g.collisions it.meta.key_hash) key)
      → ((keys : List ℕ → Option ℕ)
          → c ≡ false
          → g.collisions it.meta.key_hash ≡ some keys
          → keys it.key ≡ some n)
      → IsSpot g n (suc n) it c n
  fresh-IsSpot c room others kept = record {
    inside = room;
    below = omega arith;
    grows = omega arith;
    others = others;
    apart_hash = λ keyhash i f differ e. omega (arith, f.below, e);
    apart_key = λ keyhash i f differ e. omega (arith, f.below, e);
    kept = kept;
  }

  -- The place of the item that the key has.
  found-IsSpot :
      (c : Bool) (idx : ℕ) (f : Filled g n it.meta.key_hash idx)
      → f.item.key ≡ it.key
      → ((key : List ℕ)
          → bytes_eq key it.key ≡ false
          → index_of g it.meta.key_hash key ≡ in_keys (g.collisions it.meta.key_hash) key)
      → ((keys : List ℕ → Option ℕ)
          → c ≡ false
          → g.collisions it.meta.key_hash ≡ some keys
          → keys it.key ≡ some idx)
      → IsSpot g n n it c idx
  found-IsSpot c idx f same others kept = record {
    inside = f.inside;
    below = f.below;
    grows = omega arith;
    others = others;
    apart_hash = λ keyhash i f' differ e. differ (
        sym f.hash
        ∙ ap (λ x. x.meta.key_hash) (apart_items g idx i f.item f'.item f.there f'.there e)
        ∙ f'.hash);
    apart_key = λ keyhash i f' differ e.
        bytes_eq_differ f'.item.key it.key differ
          (ap (λ x. x.key) (sym (apart_items g idx i f.item f'.item f.there f'.there e)) ∙ same);
    kept = kept;
  }

  -- The first index of the hash is of another key, or of none.
  others_top :
      (i : ℕ) (key : List ℕ) (keys : List ℕ → Option ℕ)
      → g.index it.meta.key_hash ≡ some i
      → g.collisions it.meta.key_hash ≡ some keys
      → index_of g it.meta.key_hash key ≡ keys key
  unfolding index_of index_from
  others_top i key keys p q =
      let f = inv.first it.meta.key_hash i p in
      elim (Bool-cases (key_at (slot g i) key)) [
        | inr off ↦ rw (p, off, q) refl
        | inl on ↦
            rw (p, on)
              (sym (
                ap keys
                  ((bytes_eq_iff key f.item.key).0 (ap (λ s. key_at s key) (sym f.there) ∙ on))
                ∙ inv.top it.meta.key_hash keys i f.item q p f.there))
      ]

-- The inner map of a hash, once it is there: `a` is the item of the first index.
module _ (g : HintBuffer) (n keyhash i : ℕ) (a : HintItem) (inv : Inv g n)
    (keys : List ℕ → Option ℕ) (p : g.index keyhash ≡ some i) (q : slot g i ≡ some a)
    (top : keys a.key ≡ some i)
    (inner : (key : List ℕ) (j : ℕ)
      → keys key ≡ some j
      → (f : Filled g n keyhash j) × (f.item.key ≡ key))
    (agree : (key : List ℕ)
      → bytes_eq key a.key ≡ false
      → keys key ≡ in_keys (g.collisions keyhash) key) where
  abbrev opened : HintBuffer
  opened = record g { collisions = put_collisions g.collisions keyhash keys }

  refill : (k j : ℕ) → Filled g n k j → Filled opened n k j
  refill k j f = record {
    item = f.item;
    below = f.below;
    inside = f.inside;
    there = f.there;
    hash = f.hash;
  }

  opened_keys : opened.collisions keyhash ≡ some keys
  opened_keys = rw ((==_iff keyhash keyhash).1 refl) refl

  opened_other : (k : ℕ) → (keyhash == k) ≡ false → opened.collisions k ≡ g.collisions k
  opened_other k e = rw e refl

  keys_are :
      (k : ℕ) (ks : List ℕ → Option ℕ) → keyhash ≡ k → opened.collisions k ≡ some ks → ks ≡ keys
  keys_are k ks same e = some_inj.0 (sym e ∙ ap opened.collisions (sym same) ∙ opened_keys)

  opened-Inv : Inv opened n
  unfolding refill
  opened-Inv = record {
    first = λ k j e. refill k j (inv.first k j e);
    inner = λ k ks key j e e'. elim (Bool-cases (keyhash == k)) [
      | inr off ↦
          let old = inv.inner k ks key j (sym (opened_other k off) ∙ e) e' in
          (refill k j old.0, old.1)
      | inl on ↦
          let same = (==_iff keyhash k).0 on in
          let old = inner key j (ap (λ m. m key) (sym (keys_are k ks same e)) ∙ e') in
          subst (λ x. (f : Filled opened n x j) × (f.item.key ≡ key)) same
            (refill keyhash j old.0, old.1)
    ];
    top = λ k ks j b e e' e2. elim (Bool-cases (keyhash == k)) [
      | inr off ↦ inv.top k ks j b (sym (opened_other k off) ∙ e) e' e2
      | inl on ↦
          let same = (==_iff keyhash k).0 on in
          let at : i ≡ j = some_inj.0 (sym p ∙ ap g.index same ∙ e') in
          let item_same : a ≡ b = some_inj.0 (sym q ∙ ap (slot g) at ∙ e2) in
          ap (λ m. m b.key) (keys_are k ks same e)
          ∙ ap (λ x. keys x.key) (sym item_same)
          ∙ top
          ∙ ap some at
    ];
    nothing = λ k e. elim (Bool-cases (keyhash == k)) [
      | inr off ↦ opened_other k off ∙ inv.nothing k e
      | inl on ↦ absurd (none_not_some (sym e ∙ ap g.index (sym ((==_iff keyhash k).0 on)) ∙ p))
    ];
  }
    where
      none_not_some : ◌≢◌ {A = Option ℕ} none (some i)
      none_not_some e = cc

  index_of-opened : (k : ℕ) (key : List ℕ) → index_of opened k key ≡ index_of g k key
  unfolding index_of index_from
  index_of-opened k key = elim (Bool-cases (keyhash == k)) [
    | inr off ↦ other k off (g.index k)
    | inl on ↦
        subst (λ x. index_from opened x key (g.index x) ≡ index_from g x key (g.index x))
          ((==_iff keyhash k).0 on) here
  ]
    where
      other :
          (x : ℕ)
          → (keyhash == x) ≡ false
          → (o : Option ℕ) → index_from opened x key o ≡ index_from g x key o
      other x off none = refl
      other x off (some j) = rw (opened_other x off) refl

      here :
          index_from opened keyhash key (g.index keyhash)
          ≡ index_from g keyhash key (g.index keyhash)
      here = elim (Bool-cases (bytes_eq key a.key)) [
        | inl on ↦ rw (p, q, on) refl
        | inr off ↦ rw (p, q, off, opened_keys) (agree key off)
      ]

  get-opened : (k : ℕ) (key : List ℕ) → (get_hint opened k key).0 ≡ (get_hint g k key).0
  unfolding get_hint
  get-opened k key = ap (item_from opened) (index_of-opened k key) ∙ go (index_of g k key)
    where
      go : (o : Option ℕ) → item_from opened o ≡ item_from g o
      go none = refl
      go (some j) = refl

-- What `Set` leaves: the invariant, and for each key the item that was set, or the old one.
record IsStored (g : HintBuffer) (it : HintItem) (r : HintBuffer × Bool) : Type 0 where
  pub inv : Inv r.0 r.0.num
  pub empty : (keyhash : ℕ) → r.0.no_index ≡ true → r.0.index keyhash ≡ none
  pub get :
      (keyhash : ℕ) (key : List ℕ)
      → (get_hint r.0 keyhash key).0 ≡ (
          if r.1
          then or_set it keyhash key (get_hint g keyhash key).0
          else (get_hint g keyhash key).0)

module _ (h : HintBuffer) (a b n : ℕ) (inv : Inv h n) where
  abbrev counted : HintBuffer
  counted = record h { maxoffset = a; num = b }

  counted-Inv : Inv counted n
  counted-Inv = record {
    first = λ k j e. again k j (inv.first k j e);
    inner = λ k ks key j e e'. let (f, same) = inv.inner k ks key j e e' in (again k j f, same);
    top = inv.top;
    nothing = inv.nothing;
  }
    where
      again : (k j : ℕ) → Filled h n k j → Filled counted n k j
      again k j f = record {
        item = f.item;
        below = f.below;
        inside = f.inside;
        there = f.there;
        hash = f.hash;
      }

  index_of-counted : (k : ℕ) (key : List ℕ) → index_of counted k key ≡ index_of h k key
  unfolding index_of index_from
  index_of-counted k key = go (h.index k)
    where
      go : (o : Option ℕ) → index_from counted k key o ≡ index_from h k key o
      go none = refl
      go (some j) = refl

  get-counted : (k : ℕ) (key : List ℕ) → (get_hint counted k key).0 ≡ (get_hint h k key).0
  unfolding get_hint
  get-counted k key = ap (item_from counted) (index_of-counted k key) ∙ go (index_of h k key)
    where
      go : (o : Option ℕ) → item_from counted o ≡ item_from h o
      go none = refl
      go (some j) = refl

module _ (g ready : HintBuffer) (it : HintItem) (size : ℕ) (c : Bool) (inv : Inv ready ready.num)
    (same : (k : ℕ) (key : List ℕ) → (get_hint ready k key).0 ≡ (get_hint g k key).0)
    (empty : (k : ℕ) → ready.no_index ≡ true → ready.index k ≡ none) where
  store_found-some :
      (idx : ℕ)
      → IsSpot ready ready.num ready.num it c idx
      → IsStored g it (store_found ready it size c (some idx))
  unfolding store_found store_at
  store_found-some idx spot = record {
    inv = store_at-Inv ready it size c idx ready.num ready.num inv spot;
    empty = λ k e. absurd (false≢true e);
    get = λ k key.
        get-store_at ready it size c idx ready.num ready.num inv spot k key
        ∙ ap (or_set it k key) (same k key);
  }

  store_found-none :
      ((key : List ℕ)
        → bytes_eq key it.key ≡ false
        → index_of ready it.meta.key_hash key ≡ in_keys (ready.collisions it.meta.key_hash) key)
      → ((keys : List ℕ → Option ℕ)
          → c ≡ false
          → ready.collisions it.meta.key_hash ≡ some keys
          → keys it.key ≡ some ready.num)
      → IsStored g it (store_found ready it size c none)
  unfolding store_found store_at
  store_found-none others kept = elim (Bool-cases (leb (length ready.items) ready.num)) [
    | inl full ↦ rw full (record {
      inv = counted-Inv ready _ ready.num ready.num inv;
      empty = empty;
      get = λ k key. get-counted ready _ ready.num ready.num inv k key ∙ same k key;
    })
    | inr room ↦
        let n = ready.num in
        let h : HintBuffer = record ready { num = suc n } in
        let inv' : Inv h n = counted-Inv ready ready.maxoffset (suc n) n inv in
        let spot : IsSpot h n (suc n) it c n =
          fresh-IsSpot h n it inv' c (ground (arith, room))
            (λ key e.
              index_of-counted ready ready.maxoffset (suc n) n inv it.meta.key_hash key
              ∙ others key e)
            kept in
        rw room (record {
          inv = store_at-Inv h it size c n n (suc n) inv' spot;
          empty = λ k e. absurd (false≢true e);
          get = λ k key.
              get-store_at h it size c n n (suc n) inv' spot k key
              ∙ ap (or_set it k key)
                  (get-counted ready ready.maxoffset (suc n) n inv k key ∙ same k key);
        })
  ]

module _ (g : HintBuffer) (it : HintItem) (size : ℕ) (inv : Inv g g.num)
    (empty : (k : ℕ) → g.no_index ≡ true → g.index k ≡ none) where
  index_of-none :
      (key : List ℕ) → g.index it.meta.key_hash ≡ none → index_of g it.meta.key_hash key ≡ none
  unfolding index_of index_from
  index_of-none key e = rw e refl

  index_of_off :
      (key : List ℕ) (i : ℕ)
      → g.index it.meta.key_hash ≡ some i
      → key_at (slot g i) key ≡ false
      → index_of g it.meta.key_hash key ≡ in_keys (g.collisions it.meta.key_hash) key
  unfolding index_of index_from
  index_of_off key i e off = rw (e, off) refl

  index_of_on :
      (key : List ℕ) (i : ℕ)
      → g.index it.meta.key_hash ≡ some i
      → key_at (slot g i) key ≡ true
      → index_of g it.meta.key_hash key ≡ some i
  unfolding index_of index_from
  index_of_on key i e on = rw (e, on) refl

  -- The hash is new.
  set_new :
      g.index it.meta.key_hash ≡ none
      → IsStored g it (store_found g it size false (index_of g it.meta.key_hash it.key))
  set_new e =
      let no_keys = inv.nothing it.meta.key_hash e in
      subst (λ o. IsStored g it (store_found g it size false o)) (sym (index_of-none it.key e))
        (store_found-none g g it size false inv (λ k key. refl) empty
          (λ key off. index_of-none key e ∙ ap (λ m. in_keys m key) (sym no_keys))
          (λ keys off p. absurd (none_not_some keys (sym no_keys ∙ p))))
    where
      none_not_some :
          (keys : List ℕ → Option ℕ) → ◌≢◌ {A = Option (List ℕ → Option ℕ)} none (some keys)
      none_not_some keys q = cc

  -- The first index of the hash is of the key.
  set_same :
      (i : ℕ)
      → g.index it.meta.key_hash ≡ some i
      → key_at (slot g i) it.key ≡ true
      → IsStored g it (store_found g it size false (index_of g it.meta.key_hash it.key))
  set_same i e on =
      let f = inv.first it.meta.key_hash i e in
      let same_key : f.item.key ≡ it.key =
        sym ((bytes_eq_iff it.key f.item.key).0 (ap (λ s. key_at s it.key) (sym f.there) ∙ on)) in
      subst (λ o. IsStored g it (store_found g it size false o)) (sym (index_of_on it.key i e on))
        (store_found-some g g it size false inv (λ k key. refl) empty i
          (found-IsSpot g g.num it inv false i f same_key
            (λ key off.
              index_of_off key i e
                (ap (λ s. key_at s key) f.there ∙ ap (bytes_eq key) same_key ∙ off))
            (λ keys off p.
              ap keys (sym same_key) ∙ inv.top it.meta.key_hash keys i f.item p e f.there)))

  -- What the inner map has to be when the first index is of the item `a`.
  record IsInner (i : ℕ) (a : HintItem) (keys : List ℕ → Option ℕ) : Type 0 where
    pub top : keys a.key ≡ some i
    pub inner :
        (key : List ℕ) (j : ℕ)
        → keys key ≡ some j
        → (f : Filled g g.num it.meta.key_hash j) × (f.item.key ≡ key)
    pub agree :
        (key : List ℕ)
        → bytes_eq key a.key ≡ false
        → keys key ≡ in_keys (g.collisions it.meta.key_hash) key

  single-IsInner :
      (i : ℕ) (f : Filled g g.num it.meta.key_hash i)
      → g.collisions it.meta.key_hash ≡ none
      → IsInner i f.item (put_in_keys (λ k. none) f.item.key i)
  single-IsInner i f e = record {
    top = rw (bytes_eq_refl f.item.key) refl;
    inner = λ key j q. elim (Bool-cases (bytes_eq f.item.key key)) [
      | inl on ↦
          let at : i ≡ j = some_inj.0 (rw on at q) in
          coe 0 1 (x. (f' : Filled g g.num it.meta.key_hash (at x)) × (f'.item.key ≡ key))
            (f, (bytes_eq_iff f.item.key key).0 on)
      | inr off ↦ absurd (none_not_some j (rw off at q))
    ];
    agree = λ key off. rw (bytes_eq_flip key f.item.key off, e) refl;
  }
    where
      none_not_some : (j : ℕ) → ◌≢◌ {A = Option ℕ} none (some j)
      none_not_some j q = cc

  keys_of-IsInner :
      (i : ℕ) (f : Filled g g.num it.meta.key_hash i) (o : Option (List ℕ → Option ℕ))
      → g.index it.meta.key_hash ≡ some i
      → g.collisions it.meta.key_hash ≡ o
      → IsInner i f.item (keys_of g it.meta.key_hash i o)
  keys_of-IsInner i f none e q =
      subst (λ s. IsInner i f.item (single_key s i)) (sym f.there) (single-IsInner i f q)
  keys_of-IsInner i f (some keys) e q = record {
    top = inv.top it.meta.key_hash keys i f.item q e f.there;
    inner = λ key j p. inv.inner it.meta.key_hash keys key j q p;
    agree = λ key off. ap (λ m. in_keys m key) (sym q);
  }

  set_opened :
      (i : ℕ) (f : Filled g g.num it.meta.key_hash i) (keys : List ℕ → Option ℕ)
      → IsInner i f.item keys
      → g.index it.meta.key_hash ≡ some i
      → key_at (slot g i) it.key ≡ false
      → (o : Option ℕ) → index_of g it.meta.key_hash it.key ≡ o
      → IsStored g it (
          store_found
            (record g { collisions = put_collisions g.collisions it.meta.key_hash keys })
            it
            size
            true
            o)
  set_opened i f keys fine e off none q =
      let kh = it.meta.key_hash in
      let inv' = opened-Inv g g.num kh i f.item inv keys e f.there fine.top fine.inner fine.agree in
      let there =
        opened_keys g g.num kh i f.item inv keys e f.there fine.top fine.inner fine.agree in
      store_found-none g (record g { collisions = put_collisions g.collisions kh keys }) it size
        true inv' (get-opened g g.num kh i f.item inv keys e f.there fine.top fine.inner fine.agree)
        empty
        (λ key off'.
          others_top (record g { collisions = put_collisions g.collisions kh keys }) g.num it inv' i
            key keys e there
          ∙ ap (λ m. in_keys m key) (sym there))
        (λ ks p r. absurd (false≢true (sym p)))
  set_opened i f keys fine e off (some j) q =
      let kh = it.meta.key_hash in
      let inv' = opened-Inv g g.num kh i f.item inv keys e f.there fine.top fine.inner fine.agree in
      let there =
        opened_keys g g.num kh i f.item inv keys e f.there fine.top fine.inner fine.agree in
      let (old, same) = located g g.num kh it.key j inv q in
      store_found-some g (record g { collisions = put_collisions g.collisions kh keys }) it size
        true inv' (get-opened g g.num kh i f.item inv keys e f.there fine.top fine.inner fine.agree)
        empty j
        (found-IsSpot (record g { collisions = put_collisions g.collisions kh keys }) g.num it inv'
          true j
          (record {
            item = old.item;
            below = old.below;
            inside = old.inside;
            there = old.there;
            hash = old.hash;
          })
          same
          (λ key off'.
            others_top (record g { collisions = put_collisions g.collisions kh keys }) g.num it inv'
              i key keys e there
            ∙ ap (λ m. in_keys m key) (sym there))
          (λ ks p r. absurd (false≢true (sym p))))

  -- The first index of the hash is of another key.
  set_other :
      (i : ℕ)
      → g.index it.meta.key_hash ≡ some i
      → key_at (slot g i) it.key ≡ false
      → IsStored g it (
          store_found
            (record g {
              collisions =
                  put_collisions g.collisions it.meta.key_hash
                    (keys_of g it.meta.key_hash i (g.collisions it.meta.key_hash));
            })
            it
            size
            true
            (index_of g it.meta.key_hash it.key))
  set_other i e off =
      let f = inv.first it.meta.key_hash i e in
      set_opened i f (keys_of g it.meta.key_hash i (g.collisions it.meta.key_hash))
        (keys_of-IsInner i f (g.collisions it.meta.key_hash) e refl) e off
        (index_of g it.meta.key_hash it.key) refl

  set_ready :
      (first : Option ℕ)
      → g.index it.meta.key_hash ≡ first
      → IsStored g it (
          store_found
            (with_keys g it first)
            it
            size
            (collides g it.key first)
            (index_of g it.meta.key_hash it.key))
  set_ready none e = set_new e
  set_ready (some i) e = elim (Bool-cases (key_at (slot g i) it.key)) [
    | inl on ↦ rw on (set_same i e on)
    | inr off ↦ rw off (set_other i e off)
  ]

-- A buffer without an index, given its slots.
module _ (h : HintBuffer) (cap : ℕ) (inv : Inv h h.num) (bare : (k : ℕ) → h.index k ≡ none) where
  abbrev slotted : HintBuffer
  slotted = record h { items = replicate cap none }

  not_some : (k idx : ℕ) → h.index k ≢ some idx
  not_some k idx e = none_not_some (sym (bare k) ∙ e)
    where
      none_not_some : ◌≢◌ {A = Option ℕ} none (some idx)
      none_not_some q = cc

  no_keys : (k : ℕ) (keys : List ℕ → Option ℕ) → h.collisions k ≢ some keys
  no_keys k keys e = none_not_some (sym (inv.nothing k (bare k)) ∙ e)
    where
      none_not_some : ◌≢◌ {A = Option (List ℕ → Option ℕ)} none (some keys)
      none_not_some q = cc

  slotted-Inv : Inv slotted slotted.num
  slotted-Inv = record {
    first = λ k idx e. absurd (not_some k idx e);
    inner = λ k keys key idx e e'. absurd (no_keys k keys e);
    top = λ k keys idx a e e' e2. absurd (no_keys k keys e);
    nothing = inv.nothing;
  }

  get-slotted : (k : ℕ) (key : List ℕ) → (get_hint slotted k key).0 ≡ (get_hint h k key).0
  unfolding get_hint index_of index_from
  get-slotted k key = rw bare refl

-- The buffers that calls of `Set` lead to.
pub data Sets (cap : ℕ) : HintBuffer → Type 0 where
  starts : Sets cap new_hint_buffer
  sets :
      (h : HintBuffer) (it : HintItem) (size : ℕ) → Sets cap h → Sets cap (set_hint cap h it size).0

set_with_items :
    (cap : ℕ) (h : HintBuffer) (it : HintItem) (size : ℕ)
    → Inv h h.num
    → ((k : ℕ) → h.no_index ≡ true → h.index k ≡ none)
    → IsStored h it (set_hint cap h it size)
unfolding set_hint
set_with_items cap h it size inv empty = elim (Bool-cases h.no_index) [
  | inr off ↦ onto h (ap choose off) (set_ready h it size inv empty (h.index it.meta.key_hash) refl)
  | inl on ↦
      let bare : (k : ℕ) → h.index k ≡ none = λ k. empty k on in
      let done =
        set_ready (record h { items = replicate cap none }) it size (slotted-Inv h cap inv bare)
          empty (h.index it.meta.key_hash) refl in
      onto (record h { items = replicate cap none }) (ap choose on)
        (record {
          inv = done.inv;
          empty = done.empty;
          get = λ k key.
              done.get k key
              ∙ ap
                  (λ old.
                    if (set_from (record h { items = replicate cap none })).1
                    then or_set it k key old
                    else old)
                  (get-slotted h cap inv bare k key);
        })
]
  where
    choose : Bool → HintBuffer
    choose b = if b then record h { items = replicate cap none } else h

    set_from : HintBuffer → HintBuffer × Bool
    set_from x =
        store_found (with_keys x it (h.index it.meta.key_hash)) it size
          (collides x it.key (h.index it.meta.key_hash)) (index_of x it.meta.key_hash it.key)

    onto :
        (x : HintBuffer)
        → with_items cap h ≡ x
        → IsStored h it (set_from x)
        → IsStored h it (set_from (with_items cap h))
    onto x w done = subst (λ y. IsStored h it (set_from y)) (sym w) done

new-Inv : Inv new_hint_buffer 0
new-Inv = record {
  first = λ k idx e. absurd (not_none idx e);
  inner = λ k keys key idx e e'. absurd (not_no_keys keys e);
  top = λ k keys idx a e e' e2. absurd (not_no_keys keys e);
  nothing = λ k e. refl;
}
  where
    not_none : (idx : ℕ) → ◌≢◌ {A = Option ℕ} none (some idx)
    not_none idx q = cc

    not_no_keys : (keys : List ℕ → Option ℕ) → ◌≢◌ {A = Option (List ℕ → Option ℕ)} none (some keys)
    not_no_keys keys q = cc

Sets-Inv :
    (cap : ℕ) (h : HintBuffer)
    → Sets cap h
    → Inv h h.num × ((k : ℕ) → h.no_index ≡ true → h.index k ≡ none)
Sets-Inv cap h starts = (new-Inv, λ k e. refl)
Sets-Inv cap h (sets h0 it size before) =
    let (inv, empty) = Sets-Inv cap h0 before in
    let after_set = set_with_items cap h0 it size inv empty in (after_set.inv, after_set.empty)

-- In a buffer that calls of `Set` lead to from a new one, after another `Set` of an item: if it answered
-- true, `Get` finds the item for its hash and key and for any others what it found before, and if the
-- buffer was full, for all what it found before.
pub get_hint-set_hint :
    (cap : ℕ) (h : HintBuffer) (it : HintItem) (size keyhash : ℕ) (key : List ℕ)
    → Sets cap h
    → (get_hint (set_hint cap h it size).0 keyhash key).0 ≡ (
        if (set_hint cap h it size).1
        then or_set it keyhash key (get_hint h keyhash key).0
        else (get_hint h keyhash key).0)
get_hint-set_hint cap h it size keyhash key before =
    let (inv, empty) = Sets-Inv cap h before in
    (set_with_items cap h it size inv empty).get keyhash key
