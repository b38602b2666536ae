-- ===== src/Data/Search.antt =====
-- sort.Search of Go's library, as the data chunk uses it: the smallest index below `n` that passes a
-- test, by halving.
use gobeansdb.Base.{
  ℕ, zero, suc, ◌+◌, ◌-◌, ◌/◌, ◌<◌, ◌≤◌, ◌≡◌, arith, Bool, inl, inr, Bool-cases, ltb, leb,
  if◌then◌else◌, ltb→lt, leb→le,
}

-- The fuel is the length of the range.
pub search_loop : ℕ → (ℕ → Bool) → ℕ → ℕ → ℕ
search_loop zero test i j = i
search_loop (suc fuel) test i j =
    let h = (i + j) / 2 in
    let pass = test h in
    let rest = search_loop fuel test (if pass then i else h + 1) (if pass then h else j) in
    if ltb i j then rest else i

unfoldable pub search : ℕ → (ℕ → Bool) → ℕ
unfolding search_loop
search n test = search_loop n test 0 n

module _ (test : ℕ → Bool) (k n : ℕ) (cut : (i : ℕ) → i < n → test i ≡ leb k i) where
  search_loop_finds :
      (fuel i j : ℕ) → i ≤ k → k ≤ j → j ≤ n → j - i ≤ fuel → search_loop fuel test i j ≡ k
  unfolding search_loop
  search_loop_finds zero i j p q r f = omega arith
  search_loop_finds (suc fuel) i j p q r f = elim (Bool-cases (ltb i j)) [
    | inr done ↦ rw done (ground (arith, done))
    | inl more ↦
        let below : i < j = ltb→lt i j more in
        rw (more, cut ((i + j) / 2) (omega (arith, below)))
          (elim (Bool-cases (leb k ((i + j) / 2))) [
            | inl low ↦
                let le : k ≤ (i + j) / 2 = leb→le k ((i + j) / 2) low in
                rw low (
                  search_loop_finds fuel i ((i + j) / 2) p le (omega (arith, below))
                    (omega (arith, below)))
            | inr high ↦
                let gt : (i + j) / 2 < k = ground (arith, high) in
                rw high (
                  search_loop_finds fuel ((i + j) / 2 + 1) j (omega (arith, gt)) q r
                    (omega (arith, below)))
          ])
  ]

  -- Where the test is whether an index is at least `k`, for all indices below `n`, and `k` is at most `n`,
  -- the search gives `k`.
  pub search_finds : k ≤ n → search n test ≡ k
  unfolding search
  search_finds h = search_loop_finds n 0 n (omega arith) h (omega arith) (omega arith)
