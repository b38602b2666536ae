-- ===== src/Leaf/Refine/Search.antt =====
-- The two loops of findInBytes of store/leaf.go, against a search in a list of items.
use gobeansdb.Base.{
  ℕ, zero, suc, ◌+◌, ◌-◌, ◌*◌, ◌/◌, ◌≤◌, ◌<◌, ◌≡◌, refl, sym, ap, ◌∙◌, arith, Bool, inl, inr,
  Bool-cases, Option, none, some, List, [], ◌∷◌, ◌++◌, length, length-append, length-take, take,
  drop, take-append, drop-append, if◌then◌else◌, bytes_eq, ltb,
}
use gobeansdb.Base.Int.{ℤ, pos, negsuc}
use gobeansdb.Base.Bytes.{put_le, length-put_le}
use gobeansdb.Leaf.{HTreeItem, item_to_bytes, find_go, find_c, find_in_bytes, scale, len_use_c_find}
use mathlib.Core.List.{append_assoc}
use native.Mathlib.Nat.{mul-div_left}
use gobeansdb.Leaf.Item.{length-item_to_bytes}

-- The bytes of a hash that a leaf of `k` stores.
abbrev pub hash_bytes : ℕ → ℕ → List ℕ
hash_bytes k h = take k (put_le 8 h)

abbrev pub entry_bytes : ℕ → HTreeItem → List ℕ
entry_bytes k e = hash_bytes k e.key_hash ++ item_to_bytes e

unfoldable pub encode : ℕ → List HTreeItem → List ℕ
encode k [] = []
encode k (e ∷ es) = entry_bytes k e ++ encode k es

abbrev pub same_key : ℕ → ℕ → HTreeItem → Bool
same_key k h e = bytes_eq (hash_bytes k e.key_hash) (hash_bytes k h)

-- The place of the first item for `h`.
unfoldable pub index_of : ℕ → ℕ → List HTreeItem → Option ℕ
index_of k h [] = none
index_of k h (e ∷ es) =
    if same_key k h e
    then some 0
    else elim (index_of k h es) [ none ↦ none | some i ↦ some (suc i) ]

module _ (k : ℕ) (short : k ≤ 8) where
  pub length-hash_bytes : (h : ℕ) → length (hash_bytes k h) ≡ k
  length-hash_bytes h = length-take k (put_le 8 h) ∙ omega (arith, length-put_le 8 h)

  pub length-entry_bytes : (e : HTreeItem) → length (entry_bytes k e) ≡ k + 11
  length-entry_bytes e =
      length-append (hash_bytes k e.key_hash) (item_to_bytes e)
      ∙ omega (arith, length-hash_bytes e.key_hash, length-item_to_bytes e)

  pub length-encode : (es : List HTreeItem) → length (encode k es) ≡ length es * (k + 11)
  unfolding encode
  length-encode [] = omega arith
  length-encode (e ∷ es) =
      length-append (entry_bytes k e) (encode k es)
      ∙ omega (arith, length-entry_bytes e, length-encode es)

  -- What a loop sees of the first item, and of those behind it.
  head_key :
      (e : HTreeItem) (rest : List ℕ) → take k (entry_bytes k e ++ rest) ≡ hash_bytes k e.key_hash
  head_key e rest =
      ap (take k) (append_assoc (hash_bytes k e.key_hash) (item_to_bytes e) rest)
      ∙ take-append (hash_bytes k e.key_hash) _ k (sym (length-hash_bytes e.key_hash))

  tail_items : (e : HTreeItem) (rest : List ℕ) → drop (k + 11) (entry_bytes k e ++ rest) ≡ rest
  tail_items e rest = drop-append (entry_bytes k e) rest (k + 11) (sym (length-entry_bytes e))

  go_step :
      (fuel h i : ℕ) (l : List ℕ)
      → 0 < length l
      → find_go (suc fuel) k (hash_bytes k h) i l ≡ (
          if bytes_eq (take k l) (hash_bytes k h)
          then pos i
          else find_go fuel k (hash_bytes k h) (i + (k + 11)) (drop (k + 11) l))
  unfolding find_go
  go_step fuel h i [] p = elim p [ ]
  go_step fuel h i (b ∷ bs) p = refl

  abbrev placed : ℕ → ℕ → Option ℕ → ℤ
  placed i step none = negsuc 0
  placed i step (some j) = pos (i + j * step)

  placed-suc :
      (i step : ℕ) (o : Option ℕ)
      → placed (i + step) step o ≡ placed i step (elim o [ none ↦ none | some j ↦ some (suc j) ])
  placed-suc i step none = refl
  placed-suc i step (some j) = ap pos (omega arith)

  find_go-encode :
      (fuel h i : ℕ) (es : List HTreeItem)
      → length es ≤ fuel
      → find_go fuel k (hash_bytes k h) i (encode k es) ≡ placed i (k + 11) (index_of k h es)
  unfolding encode index_of
  find_go-encode zero h i [] p = unfold find_go in refl
  find_go-encode (suc fuel) h i [] p = unfold find_go in refl
  find_go-encode zero h i (e ∷ es) p = absurd (omega arith)
  find_go-encode (suc fuel) h i (e ∷ es) p =
      go_step fuel h i (entry_bytes k e ++ encode k es)
        (omega (arith, length-append (entry_bytes k e) (encode k es), length-entry_bytes e))
      ∙ rw (head_key e (encode k es), tail_items e (encode k es))
          (elim (Bool-cases (same_key k h e)) [
            | inl same ↦ rw same (ap pos (omega arith))
            | inr other ↦ rw other (
                find_go-encode fuel h (i + (k + 11)) es (omega arith)
                ∙ placed-suc i (k + 11) (index_of k h es))
          ])

  find_c-encode :
      (h i : ℕ) (es : List HTreeItem)
      → find_c (length es) k (hash_bytes k h) i (encode k es) ≡ placed i 1 (index_of k h es)
  unfolding encode index_of find_c
  find_c-encode h i [] = refl
  find_c-encode h i (e ∷ es) =
      rw (head_key e (encode k es), tail_items e (encode k es))
        (elim (Bool-cases (same_key k h e)) [
          | inl same ↦ rw same (ap pos (omega arith))
          | inr other ↦ rw other (find_c-encode h (i + 1) es ∙ placed-suc i 1 (index_of k h es))
        ])

  abbrev pub Finds : ℤ → Option ℕ → Type 0
  Finds z none = (m : ℕ) × (z ≡ negsuc m)
  Finds z (some j) = z ≡ pos (j * (k + 11))

  placed-Finds : (z : ℤ) (o : Option ℕ) → z ≡ placed 0 (k + 11) o → Finds z o
  placed-Finds z none e = (0, e)
  placed-Finds z (some j) e = e ∙ ap pos (omega arith)

  scaled-Finds : (z : ℤ) (o : Option ℕ) → z ≡ scale (k + 11) (placed 0 1 o) → Finds z o
  scaled-Finds z none e = (1 * (k + 11) - 1, e)
  scaled-Finds z (some j) e = e ∙ ap pos (ap (λ (t : ℕ). t * (k + 11)) (omega arith))

  -- By either loop the place of the first item for `h` is found, or something negative.
  pub find_in_bytes-encode :
      (h : ℕ) (es : List HTreeItem) → Finds (find_in_bytes k (encode k es) h) (index_of k h es)
  unfolding find_in_bytes
  find_in_bytes-encode h es =
      let items : length (encode k es) / (k + 11) ≡ length es =
        ap (λ (t : ℕ). t / (k + 11)) (length-encode es) ∙ mul-div_left (length es) (omega arith) in
      elim (Bool-cases (ltb (length (encode k es) / (k + 11)) len_use_c_find)) [
        | inl few ↦ placed-Finds _ _ (
            rw few
              (find_go-encode (length (encode k es)) h 0 es (rw (length-encode es) (grind arith))))
        | inr many ↦
            scaled-Finds _ _ (rw (many, items) (ap (scale (k + 11)) (find_c-encode h 0 es)))
      ]
