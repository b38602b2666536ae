-- ===== src/Cmem/Balance.antt =====
-- cmem/cmem.go: the limiters across pairs of calls, and what allocation and release count.
use gobeansdb.Base.{
  ℕ, ◌≡◌, ◌≢◌, refl, arith, true, false, inl, inr, Bool-cases, length, replicate, length-replicate,
  leb, ◌==◌, ◌<◌, if◌then◌else◌,
}
use mathlib.Core.Bool.{false≢true}
use gobeansdb.Base.Int.{pos, IsInt64, sub64-add64}
use gobeansdb.Config.{McConfig}
use gobeansdb.Cmem.{
  ResourceLimiter, BeansdbRl, CArray, add_size_and_count, sub_size_and_count, alloc, free,
}

pub record IsRange (rl : ResourceLimiter) : Type 0 where
  pub count : IsInt64 rl.count
  pub size : IsInt64 rl.size

-- The current figures of a limiter; the maxima only grow.
pub record SameLevel (a b : ResourceLimiter) : Type 0 where
  pub count : a.count ≡ b.count
  pub size : a.size ≡ b.size

pub sub-add :
    (rl : ResourceLimiter) (n : ℕ)
    → IsRange rl
    → SameLevel (sub_size_and_count (add_size_and_count rl (pos n)) (pos n)) rl
unfolding add_size_and_count sub_size_and_count
sub-add rl n h = record {
  count = sub64-add64 rl.count 1 h.count;
  size = sub64-add64 rl.size n h.size;
}

pub SameLevel-refl : (rl : ResourceLimiter) → SameLevel rl rl
SameLevel-refl rl = record { count = refl; size = refl }

-- Allocation and release count in AllocRL alone.
pub get_data-free : (arr : CArray) (rl : BeansdbRl) → (free arr rl).1.get_data ≡ rl.get_data
unfolding free
get_data-free arr rl = ground arith

pub set_data-free : (arr : CArray) (rl : BeansdbRl) → (free arr rl).1.set_data ≡ rl.set_data
unfolding free
set_data-free arr rl = ground arith

pub alloc_rl-free_sub :
    (arr : CArray) (rl : BeansdbRl)
    → (free arr rl).1.alloc_rl
      ≡ (if arr.addr == 0 then rl.alloc_rl else sub_size_and_count rl.alloc_rl (pos arr.cap))
unfolding free
alloc_rl-free_sub arr rl = ground arith

module _ (conf : McConfig) (malloc : ℕ → ℕ) where
  pub get_data-alloc :
      (arr : CArray) (n : ℕ) (rl : BeansdbRl)
      → (alloc conf malloc arr n rl).2.get_data ≡ rl.get_data
  unfolding alloc
  get_data-alloc arr n rl = ground arith

  pub set_data-alloc :
      (arr : CArray) (n : ℕ) (rl : BeansdbRl)
      → (alloc conf malloc arr n rl).2.set_data ≡ rl.set_data
  unfolding alloc
  set_data-alloc arr n rl = ground arith

  -- Beyond the limit for Go memory a successful allocation is counted.
  pub alloc_rl-alloc :
      (arr : CArray) (n : ℕ) (rl : BeansdbRl)
      → conf.body_in_c < n
      → malloc n ≢ 0
      → (alloc conf malloc arr n rl).2.alloc_rl ≡ add_size_and_count rl.alloc_rl (pos n)
  unfolding alloc
  alloc_rl-alloc arr n rl h g = ground arith

  -- If the counters of AllocRL are in the range of int64, `Free` after a successful `Alloc`
  -- restores them, for either kind of memory, and the array has the size asked for.
  pub free-alloc :
      (arr : CArray) (n : ℕ) (rl : BeansdbRl)
      → IsRange rl.alloc_rl
      → (alloc conf malloc arr n rl).0 ≡ true
      → (length (alloc conf malloc arr n rl).1.body ≡ n)
        × SameLevel
            (free (alloc conf malloc arr n rl).1 (alloc conf malloc arr n rl).2).1.alloc_rl
            rl.alloc_rl
  unfolding alloc free
  free-alloc arr n rl h e = elim (Bool-cases (leb n conf.body_in_c)) [
    | inl small ↦ rw small (length-replicate n 0, record { count = refl; size = refl })
    | inr large ↦ elim (Bool-cases (malloc n == 0)) [
      | inl short ↦ absurd (false≢true (rw (large, short) at e))
      | inr got ↦ rw (large, got) (length-replicate n 0, rw got (sub-add rl.alloc_rl n h))
    ]
  ]

  -- Where malloc never fails an allocation succeeds.
  pub alloc_granted :
      (arr : CArray) (n : ℕ) (rl : BeansdbRl)
      → ((m : ℕ) → malloc m ≢ 0)
      → (kv : CArray) × (rl' : BeansdbRl) × (alloc conf malloc arr n rl ≡ (true, kv, rl'))
  unfolding alloc
  alloc_granted arr n rl granted = elim (Bool-cases (leb n conf.body_in_c)) [
    | inl small ↦ (record { body = replicate n 0; addr = 0; cap = n }, rl, rw small)
    | inr large ↦ (
      record { body = replicate n 0; addr = malloc n; cap = n },
      record rl { alloc_rl = add_size_and_count rl.alloc_rl (pos n) },
      let got : (malloc n == 0) ≡ false = ground (arith, granted n) in rw (large, got),
    )
  ]
