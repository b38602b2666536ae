-- ===== src/Bucket/Tests.antt =====
-- Runs of the code of Bucket.
use gobeansdb.Base.{◌^◌, ◌-◌, ◌≤◌, ◌≡◌, refl, arith, true, false, ◌⊎◌}
use gobeansdb.Base.Int.{pos, negsuc, ◌<ℤ◌, nat_abs}
use gobeansdb.Bucket.{check_and_update_verison}
use gobeansdb.Bucket.Version.{Accepted, check_and_update_verison_lem}

-- The next version after the largest is negative.
overflow : check_and_update_verison (pos (2 ^ 31 - 1)) (pos 0) ≡ (negsuc (2 ^ 31 - 1), true)
unfolding check_and_update_verison
overflow = refl

check_and_update_verison_lem_example :
    ((check_and_update_verison (negsuc 2) (pos 2)).1 ≡ true)
      × Accepted (negsuc 2) (pos 2) (check_and_update_verison (negsuc 2) (pos 2)).0
    ⊎ ((check_and_update_verison (negsuc 2) (pos 2)).1 ≡ false)
      × (pos 0 <ℤ pos 2)
      × (nat_abs (pos 2) ≤ nat_abs (negsuc 2))
check_and_update_verison_lem_example = check_and_update_verison_lem (negsuc 2) (pos 2) (omega arith)
