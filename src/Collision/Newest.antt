-- ===== src/Collision/Newest.antt =====
-- CmpKey of store/item.go as an order, and `get` after compareAndSet of store/collision.go.
use gobeansdb.Base.{
  ltb, ltb→lt, ◌↔◌, ◌≤◌, ℕ, ◌+◌, ◌*◌, ◌^◌, ◌<◌, ◌≡◌, ◌≢◌, ◌⊎◌, inl, inr, refl, ◌∙◌, arith, Bool,
  true, ◌||◌, Bool-cases, Option, none, some, List, ◌==◌, ==_iff, if◌then◌else◌, bytes_eq,
  bytes_eq_refl, bytes_eq_iff,
}
use gobeansdb.Base.Int.{pos, leb_ℤ, ◌≤ℤ◌}
use gobeansdb.Collision.{
  HintItem, CollisionTable, cmp_key, get, lookup, put_key, replaces, new_keys, compare_and_set,
}

-- The key of a position is one number.
cmp_key_lem :
    (chunk offset : ℕ)
    → chunk < 2 ^ 31
    → offset < 2 ^ 32
    → cmp_key (record { chunk_id = pos chunk; offset = offset }) ≡ pos (chunk * 2 ^ 32 + offset)
unfolding cmp_key
cmp_key_lem chunk offset h k = ground arith

-- For chunks below 2 ^ 31 positions are ordered by their chunks, and in one chunk by their offsets.
pub cmp_key_lexicographic :
    (c o c' o' : ℕ)
    → c < 2 ^ 31
    → o < 2 ^ 32
    → c' < 2 ^ 31
    → o' < 2 ^ 32
    → (cmp_key (record { chunk_id = pos c; offset = o })
        ≤ℤ cmp_key (record { chunk_id = pos c'; offset = o' }))
      ↔ ((c < c') ⊎ (c ≡ c') × (o ≤ o'))
cmp_key_lexicographic c o c' o' hc ho hc' ho' =
    rw (cmp_key_lem c o hc ho, cmp_key_lem c' o' hc' ho')
      (
        (λ le. elim (Bool-cases (ltb c c')) [
          | inl lt ↦ inl (ltb→lt c c' lt)
          | inr ge ↦
              let same : c ≡ c' = ground (arith, le, ge) in inr (same, omega (arith, le, same))
        ]),
        λ e. elim e [ inl lt ↦ omega (arith, lt) | inr (same, le) ↦ omega (arith, same, le) ],
      )

-- The item that a table keeps of two.
abbrev pub newest : Bool → HintItem → Option HintItem → HintItem
newest gc it none = it
newest gc it (some old) = if gc || leb_ℤ (cmp_key old.meta.at) (cmp_key it.meta.at) then it else old

kept :
    (gc : Bool) (it : HintItem) (keys : Option (List ℕ → Option HintItem))
    → new_keys gc it keys it.key ≡ some (newest gc it (lookup keys it.key).0)
unfolding new_keys lookup put_key replaces
kept gc it none = rw (bytes_eq_refl it.key)
kept gc it (some keys) = go (keys it.key) refl
  where
    go :
        (o : Option HintItem)
        → keys it.key ≡ o
        → (if replaces gc it o then put_key keys it else keys) it.key ≡ some (newest gc it o)
    go none e = rw (bytes_eq_refl it.key)
    go (some old) e = elim (Bool-cases (gc || leb_ℤ (cmp_key old.meta.at) (cmp_key it.meta.at))) [
      | inl newer ↦ rw (newer, bytes_eq_refl it.key)
      | inr older ↦ rw (older, e)
    ]

put_key_other :
    (keys : List ℕ → Option HintItem) (it : HintItem) (key : List ℕ)
    → it.key ≢ key
    → put_key keys it key ≡ keys key
unfolding put_key
put_key_other keys it key ne = elim (Bool-cases (bytes_eq it.key key)) [
  | inl same ↦ absurd (ne ((bytes_eq_iff it.key key).0 same))
  | inr other ↦ rw other
]

kept_other :
    (gc : Bool) (it : HintItem) (keys : Option (List ℕ → Option HintItem)) (key : List ℕ)
    → it.key ≢ key
    → new_keys gc it keys key ≡ (lookup keys key).0
unfolding new_keys lookup
kept_other gc it none key ne = put_key_other (λ k. none) it key ne
kept_other gc it (some keys) key ne = elim (Bool-cases (replaces gc it (keys it.key))) [
  | inl taken ↦ rw taken (put_key_other keys it key ne)
  | inr left ↦ rw left
]

-- After `compareAndSet` the table has, for the hash and the key of the item, the newer of the item and
-- the old one, or the item where there was none or in garbage collection; for another hash or another
-- key it has the item that it had.
pub get-compare_and_set :
    (table : CollisionTable) (it : HintItem) (gc : Bool) (h : ℕ) (key : List ℕ)
    → (it.meta.key_hash ≢ h) ⊎ (it.key ≢ key)
    → (get (compare_and_set table it gc) it.meta.key_hash it.key
        ≡ (some (newest gc it (get table it.meta.key_hash it.key).0), true))
      × ((get (compare_and_set table it gc) h key).0 ≡ (get table h key).0)
unfolding get compare_and_set
get-compare_and_set table it gc h key apart = (
  rw ((==_iff it.meta.key_hash it.meta.key_hash).1 refl)
      (unfold lookup in λ i. (kept gc it (table.items it.meta.key_hash) i, true)),
  elim (Bool-cases (it.meta.key_hash == h)) [
    | inr away ↦ rw away
    | inl at_hash ↦
        let same : it.meta.key_hash ≡ h = (==_iff it.meta.key_hash h).0 at_hash in
        let ne : it.key ≢ key = elim apart [ inl n ↦ absurd (n same) | inr n ↦ n ] in
        rw at_hash (
          kept_other gc it (table.items it.meta.key_hash) key ne ∙ λ i.
          (get (record { items = table.items }) (same i) key).0)
  ],
)
