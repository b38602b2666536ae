-- ===== src/Cmem/Copies.antt =====
-- Copy of cmem/cmem.go: what the copy holds.
use gobeansdb.Base.{ℕ, ◌≡◌, sym, ap, Bool, true, false, Option, none, some, List, []}
use gobeansdb.Config.{McConfig}
use gobeansdb.Cmem.{CArray, BeansdbRl, copy, copied}
use gobeansdb.Base.{inl, inr, Bool-cases, length, ◌==◌}
use gobeansdb.Cmem.{alloc, empty_array}

abbrev body_of : Option CArray → List ℕ
body_of none = []
body_of (some arr) = arr.body

module _ (conf : McConfig) (malloc : ℕ → ℕ) where
  copied_body :
      (arr new : CArray) (rl' : BeansdbRl) (made : Bool × CArray × BeansdbRl)
      → copied conf malloc arr made ≡ (some new, rl')
      → new.body ≡ arr.body
  unfolding copied
  copied_body arr new rl' (false, a, rl) e = absurd (cc)
  copied_body arr new rl' (true, a, rl) e = ap (λ p. body_of p.0) (sym e)

  -- The copy has the bytes of the array.
  pub copy-body :
      (arr new : CArray) (rl rl' : BeansdbRl)
      → copy conf malloc arr rl ≡ (some new, rl')
      → new.body ≡ arr.body
  unfolding copy
  copy-body arr new rl rl' e = elim (Bool-cases (arr.addr == 0)) [
    | inl go ↦ ap (λ p. body_of p.0) (sym (rw go at e))
    | inr c ↦
        copied_body arr new rl' (alloc conf malloc empty_array (length arr.body) rl) (rw c at e)
  ]
