-- ===== src/Record/Sizes.antt =====
-- `Sizes` of store/item.go.
use gobeansdb.Base.{ℕ, ◌+◌, ◌%◌, ◌-◌, ◌^◌, ◌≤◌, ◌<◌, ◌≡◌, arith, length}
use gobeansdb.Record.{Rec, sizes}

-- The bytes that a record takes, unrounded.
abbrev pub raw_size : Rec → ℕ
raw_size rec = 24 + length rec.key + length rec.payload.body

pub record IsRounded (size rounded : ℕ) : Type 0 where
  pub aligned : rounded % 256 ≡ 0
  pub covers : size ≤ rounded
  pub tight : rounded < size + 256

-- A record that stays 256 bytes below 4 GB takes exactly its raw size, and on disk the least
-- multiple of 256 that is no smaller.
pub sizes_lem :
    (rec : Rec)
    → raw_size rec < 2 ^ 32 - 256
    → ((sizes rec).0 ≡ raw_size rec) × IsRounded (raw_size rec) (sizes rec).1
unfolding sizes
sizes_lem rec h =
    (omega arith, record { aligned = omega arith; covers = omega arith; tight = omega arith })
