-- ===== src/Cmem.antt =====
-- cmem/cmem.go and cmem/beansdb.go: accounting of memory, and byte arrays that live in Go's heap or
-- in C's.
pub mod Balance
pub mod Copies
mod Tests
use gobeansdb.Base.{
  ℕ, Bool, true, false, ◌&&◌, Option, none, some, List, [], length, replicate, leb, ◌==◌,
  if◌then◌else◌,
}
use gobeansdb.Base.Int.{ℤ, pos, add64, sub64, ltb_ℤ, eq_ℤ}
use gobeansdb.Config.{McConfig}

-- The counters are int64, with the wrap of `atomic.AddInt64`.
pub record ResourceLimiter : Type 0 where
  pub count : ℤ
  pub size : ℤ
  pub max_count : ℤ
  pub max_size : ℤ

abbrev pub reset : ResourceLimiter
reset = record { count = pos 0; size = pos 0; max_count = pos 0; max_size = pos 0 }

pub is_zero : ResourceLimiter → Bool
is_zero rl = eq_ℤ rl.count (pos 0) && eq_ℤ rl.size (pos 0)

pub add_size : ResourceLimiter → ℤ → ResourceLimiter
add_size rl size =
    let now = add64 rl.size size in
    record rl { size = now; max_size = if ltb_ℤ rl.max_size now then now else rl.max_size }

pub sub_size : ResourceLimiter → ℤ → ResourceLimiter
sub_size rl size = record rl { size = sub64 rl.size size }

pub add_count : ResourceLimiter → ℤ → ResourceLimiter
add_count rl count =
    let now = add64 rl.count count in
    record rl { count = now; max_count = if ltb_ℤ rl.max_count now then now else rl.max_count }

pub sub_count : ResourceLimiter → ℤ → ResourceLimiter
sub_count rl count = record rl { count = sub64 rl.count count }

unfoldable pub add_size_and_count : ResourceLimiter → ℤ → ResourceLimiter
unfolding add_size add_count
add_size_and_count rl size = add_count (add_size rl size) (pos 1)

unfoldable pub sub_size_and_count : ResourceLimiter → ℤ → ResourceLimiter
unfolding sub_size sub_count
sub_size_and_count rl size = sub_count (sub_size rl size) (pos 1)

-- BeansdbRL: the global limiters.
pub record BeansdbRl : Type 0 where
  pub alloc_rl : ResourceLimiter
  pub get_data : ResourceLimiter
  pub set_data : ResourceLimiter
  pub flush_data : ResourceLimiter

-- `addr` 0 is Go memory; otherwise it is the address that malloc gave.
pub record CArray : Type 0 where
  pub body : List ℕ
  pub addr : ℕ
  pub cap : ℕ

abbrev pub empty_array : CArray
empty_array = record { body = []; addr = 0; cap = 0 }

unfoldable pub free : CArray → BeansdbRl → CArray × BeansdbRl
free arr rl =
    if arr.addr == 0
    then (arr, rl)
    else (empty_array, record rl { alloc_rl = sub_size_and_count rl.alloc_rl (pos arr.cap) })

-- `malloc` is the C library's, 0 when memory is short. What it returns is read as zeros: the code
-- writes the whole array before it reads it.
module _ (conf : McConfig) (malloc : ℕ → ℕ) where
  unfoldable pub alloc : CArray → ℕ → BeansdbRl → Bool × CArray × BeansdbRl
  alloc arr size rl =
      if leb size conf.body_in_c
      then (true, record { body = replicate size 0; addr = 0; cap = size }, rl)
      else if malloc size == 0
      then (false, record arr { addr = 0 }, rl)
      else (
        true,
        record { body = replicate size 0; addr = malloc size; cap = size },
        record rl { alloc_rl = add_size_and_count rl.alloc_rl (pos size) },
      )

  copied : CArray → Bool × CArray × BeansdbRl → Option CArray × BeansdbRl
  copied arr (false, arr_new, rl) = (none, rl)
  copied arr (true, arr_new, rl) = (some (record arr_new { body = arr.body }), rl)

  -- `Copy`; `none` is `ok == false`. A copy in Go memory keeps `Cap` 0.
  unfoldable pub copy : CArray → BeansdbRl → Option CArray × BeansdbRl
  unfolding copied
  copy arr rl =
      if arr.addr == 0
      then (some (record { body = arr.body; addr = 0; cap = 0 }), rl)
      else copied arr (alloc empty_array (length arr.body) rl)
