-- ===== src/Bucket/Version.antt =====
-- checkAndUpdateVerison of store/bucket.go: what it answers, case by case.
use gobeansdb.Base.{
  ℕ, zero, suc, ◌^◌, ◌+◌, ◌-◌, ◌∙◌, ◌≤◌, ◌<◌, ◌≡◌, refl, arith, true, false, ◌⊎◌, inl, inr,
  Bool-cases, leb, leb→le, if◌then◌else◌,
}
use gobeansdb.Base.Int.{ℤ, pos, negsuc, ◌≤ℤ◌, ◌<ℤ◌, nat_abs, wrap32, ◌-ℤ◌, eq_ℤ, ltb_ℤ, leb_ℤ}
use gobeansdb.Bucket.{abs, neg32, check_and_update_verison}

-- The write is valid, its version is further from 0 than the old one, positive for a set and negative
-- for a deletion; or it asks for a version that is positive and no further from 0, and is not valid.
pub record Accepted (oldv ver new : ℤ) : Type 0 where
  pub newer : nat_abs oldv < nat_abs new
  pub live : (pos 0 ≤ℤ ver) × (pos 0 <ℤ new) ⊎ (ver <ℤ pos 0) × (new <ℤ pos 0)

abs_lem : (v : ℤ) → nat_abs v < 2 ^ 31 - 1 → abs v ≡ pos (nat_abs v)
unfolding abs neg32
abs_lem (pos n) h = ground arith
abs_lem (negsuc n) h = ground arith

abs_pos : (n : ℕ) → abs (pos n) ≡ pos n
unfolding abs
abs_pos n = ground arith

leb_pos : (m n : ℕ) → leb_ℤ (pos m) (pos n) ≡ leb m n
leb_pos m n = λ i. leb (plus_zero m i) (plus_zero n i)
  where
    plus_zero : (k : ℕ) → k + 0 ≡ k
    plus_zero k = omega arith

neg32_lem : (n : ℕ) → n < 2 ^ 31 - 1 → wrap32 (neg32 (pos n) -ℤ pos 1) ≡ negsuc n
unfolding neg32
neg32_lem zero h = refl
neg32_lem (suc n) h = ground arith

-- Zero asks for the next version, a negative number for the next deletion.
next_version :
    (oldv : ℤ)
    → nat_abs oldv < 2 ^ 31 - 1
    → check_and_update_verison oldv (pos 0) ≡ (pos (suc (nat_abs oldv)), true)
unfolding check_and_update_verison neg32
next_version (pos n) h = ground arith
next_version (negsuc n) h = ground arith

next_deletion :
    (oldv : ℤ) (n : ℕ)
    → nat_abs oldv < 2 ^ 31 - 1
    → check_and_update_verison oldv (negsuc n) ≡ (negsuc (nat_abs oldv), true)
unfolding check_and_update_verison
next_deletion oldv n h =
    let not_zero : eq_ℤ (negsuc n) (pos 0) ≡ false = ground arith in
    let below : ltb_ℤ (negsuc n) (pos 0) ≡ true = ground arith in
    let deleted : wrap32 (neg32 (abs oldv) -ℤ pos 1) ≡ negsuc (nat_abs oldv) =
      (λ i. wrap32 (neg32 (abs_lem oldv h i) -ℤ pos 1)) ∙ neg32_lem (nat_abs oldv) h in
    rw (not_zero, below) (λ i. (deleted i, true))

asked_version :
    (oldv : ℤ) (n : ℕ)
    → nat_abs oldv < 2 ^ 31 - 1
    → check_and_update_verison oldv (pos (suc n))
      ≡ (if leb (suc n) (nat_abs oldv) then (pos 1, false) else (pos (suc n), true))
unfolding check_and_update_verison
asked_version oldv n h =
    let not_zero : eq_ℤ (pos (suc n)) (pos 0) ≡ false = ground arith in
    let above : ltb_ℤ (pos (suc n)) (pos 0) ≡ false = ground arith in
    let same : leb_ℤ (abs (pos (suc n))) (abs oldv) ≡ leb (suc n) (nat_abs oldv) =
      (λ i. leb_ℤ (abs_pos (suc n) i) (abs_lem oldv h i)) ∙ leb_pos (suc n) (nat_abs oldv) in
    rw (not_zero, above, same) refl

-- For an old version less than 2 ^ 31 - 1 away from 0, either the write is valid, and its version is
-- further from 0 than the old one, positive if a version of at least 0 was asked for, and negative if
-- not; or a positive version no further from 0 than the old one was asked for, and the write is not
-- valid.
pub check_and_update_verison_lem :
    (oldv ver : ℤ)
    → nat_abs oldv < 2 ^ 31 - 1
    → ((check_and_update_verison oldv ver).1 ≡ true)
        × Accepted oldv ver (check_and_update_verison oldv ver).0
      ⊎ ((check_and_update_verison oldv ver).1 ≡ false)
        × (pos 0 <ℤ ver)
        × (nat_abs ver ≤ nat_abs oldv)
check_and_update_verison_lem oldv (pos zero) small =
    rw (next_version oldv small)
      (inl (refl, record { newer = omega arith; live = inl (omega arith, omega arith) }))
check_and_update_verison_lem oldv (pos (suc n)) small =
    rw (asked_version oldv n small) (elim (Bool-cases (leb (suc n) (nat_abs oldv))) [
      | inl old ↦ rw old (inr (refl, omega arith, omega (arith, leb→le (suc n) (nat_abs oldv) old)))
      | inr new ↦
          let above : nat_abs oldv < suc n = ground (arith, new) in
          rw new (
            inl (
              refl,
              record { newer = omega (arith, above); live = inl (omega arith, omega arith) },
            ))
    ])
check_and_update_verison_lem oldv (negsuc n) small =
    rw (next_deletion oldv n small)
      (inl (refl, record { newer = omega arith; live = inr (omega arith, omega arith) }))
