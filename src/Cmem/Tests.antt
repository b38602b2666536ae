-- ===== src/Cmem/Tests.antt =====
-- Runs of the code of Cmem.
use gobeansdb.Base.{ℕ, suc, ◌≡◌, refl, arith, true, some, [], ◌∷◌, length}
use gobeansdb.Base.Int.{pos}
use gobeansdb.Config.{McConfig}
use gobeansdb.Cmem.{
  BeansdbRl, reset, is_zero, add_size_and_count, sub_size_and_count, alloc, free, copy, empty_array,
}
use gobeansdb.Cmem.Balance.{SameLevel, free-alloc, sub-add}

abbrev conf : McConfig
conf = record {
  max_key_len = 250;
  max_req = 16;
  body_max = 1000;
  body_big = 500;
  body_in_c = 4;
  flush_max = 1000;
}

abbrev malloc : ℕ → ℕ
malloc n = suc n

abbrev rl : BeansdbRl
rl = record { alloc_rl = reset; get_data = reset; set_data = reset; flush_data = reset }

reset-is_zero : is_zero reset ≡ true
unfolding is_zero
reset-is_zero = refl

-- A copy of an array in Go's memory has no capacity.
copy_in_go :
    (copy conf malloc (record { body = 1 ∷ 2 ∷ []; addr = 0; cap = 2 }) rl).0
    ≡ some (record { body = 1 ∷ 2 ∷ []; addr = 0; cap = 0 })
unfolding copy
copy_in_go = refl

alloc_five : (alloc conf malloc empty_array 5 rl).0 ≡ true
unfolding alloc
alloc_five = refl

free-alloc_example :
    (length (alloc conf malloc empty_array 5 rl).1.body ≡ 5)
    × SameLevel
        (free
          (alloc conf malloc empty_array 5 rl).1
          (alloc conf malloc empty_array 5 rl).2).1.alloc_rl
        rl.alloc_rl
free-alloc_example =
    free-alloc conf malloc empty_array 5 rl (record { count = omega arith; size = omega arith })
      alloc_five

sub-add_example : SameLevel (sub_size_and_count (add_size_and_count reset (pos 5)) (pos 5)) reset
sub-add_example = sub-add reset 5 (record { count = omega arith; size = omega arith })
