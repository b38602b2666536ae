-- ===== src/Bucket.antt =====
-- store/bucket.go: the version that a write gets. A version is an int32, negative for a deleted key.
pub mod Version
mod Tests
use gobeansdb.Base.{Bool, true, false, if◌then◌else◌}
use gobeansdb.Base.Int.{ℤ, pos, ◌+ℤ◌, ◌-ℤ◌, wrap32, ltb_ℤ, leb_ℤ, eq_ℤ}

-- `-n` and `abs` of an int32: both give -2^31 for -2^31.
pub neg32 : ℤ → ℤ
neg32 n = wrap32 (pos 0 -ℤ n)

pub abs : ℤ → ℤ
abs n = if ltb_ℤ n (pos 0) then neg32 n else n

-- `checkAndUpdateVerison`: the version to write, and whether the write is valid.
pub check_and_update_verison : ℤ → ℤ → ℤ × Bool
check_and_update_verison oldv ver =
    if eq_ℤ ver (pos 0)
    then (if leb_ℤ (pos 0) oldv then wrap32 (oldv +ℤ pos 1) else wrap32 (neg32 oldv +ℤ pos 1), true)
    else if ltb_ℤ ver (pos 0)
    then (wrap32 (neg32 (abs oldv) -ℤ pos 1), true)
    else if leb_ℤ (abs ver) (abs oldv)
    then (pos 1, false)
    else (ver, true)
