-- ===== src/Memcache/Receive/Balance.antt =====
-- `Request.Read` of memcache/protocol.go: the counter of the values that are being received, across
-- every way it can end.
use gobeansdb.Base.{
  ℕ, ◌≡◌, refl, sym, ap, ◌∙◌, Bool, true, false, not, ◌&&◌, ◌||◌, Option, none, some, List, [], ◌∷◌,
  length, take, drop, ltb, ◌==◌, if◌then◌else◌,
}
use gobeansdb.Base.Int.{ℤ, pos, negsuc, to_u32, ltb_ℤ}
use gobeansdb.Config.{McConfig, is_valid_value_size}
use gobeansdb.Cmem.{BeansdbRl, ResourceLimiter, alloc, add_size_and_count, sub_size_and_count}
use gobeansdb.Cmem.Balance.{
  IsRange, SameLevel, SameLevel-refl, sub-add, set_data-free, set_data-alloc,
}
use mathlib.Core.Path.{subst}
use gobeansdb.Base.{◌≢◌}
use gobeansdb.Memcache.{Command, Request, Item, command_of}
use gobeansdb.Memcache.{
  get, gets, set, add, replace, cas, append, prepend, delete, incr, decr, stats, quit, version,
  flush_all, verbosity, other,
}
use gobeansdb.Memcache.Text.{ends_crlf, read_string, split_keys, atoi}
use gobeansdb.Memcache.Token.{ReqLimiter, get_token}
use gobeansdb.Memcache.Receive.{
  RequestError, Read, ReadStep, done, waits, ended, holding, gave_up, read_end, read_data,
  read_value, read_tail, read_numbers, read_storage, read_get, read_delete, read_incr, read_args,
  read_parts, read_line, read_request, with_token, bad_noreply, network_error, bad_data_chunk,
  with_item,
}

-- The limiter is as it was, or it has given the connection a token.
pub data HasToken (start : ReqLimiter) (conn : ℕ) (now : ReqLimiter) : Type 0 where
  kept : now ≡ start → HasToken start conn now
  taken : get_token start conn ≡ some now → HasToken start conn now

-- A counter as it was, or counted up and down again.
pub data Settled (base now : ResourceLimiter) : Type 0 where
  same : now ≡ base → Settled base now
  given_back :
      (n : ℕ)
      → now ≡ sub_size_and_count (add_size_and_count base (pos n)) (pos n)
      → Settled base now

Settled-SameLevel :
    (base now : ResourceLimiter) → IsRange base → Settled base now → SameLevel now base
Settled-SameLevel base now range (same e) = rw e (SameLevel-refl base)
Settled-SameLevel base now range (given_back n e) = rw e (sub-add base n range)

-- The read waits for a token, or ends without an error, or leaves the counter settled; and where it
-- ends it has taken no token but the connection's.
pub data IsBalanced (start : ReqLimiter) (conn : ℕ) (base : ResourceLimiter)
    : ReadStep → Type 0 where
  unfinished : IsBalanced start conn base waits
  received :
      (r : Read)
      → r.error ≡ none
      → HasToken start conn r.limiter
      → IsBalanced start conn base (done r)
  unchanged :
      (r : Read)
      → Settled base r.rl.set_data
      → HasToken start conn r.limiter
      → IsBalanced start conn base (done r)

module _ (start : ReqLimiter) (conn : ℕ) where
  if-IsBalanced :
      (base : ResourceLimiter) (b : Bool) (x y : ReadStep)
      → IsBalanced start conn base x
      → IsBalanced start conn base y
      → IsBalanced start conn base (if b then x else y)
  if-IsBalanced base true x y p q = p
  if-IsBalanced base false x y p q = q

  done_if :
      (base : ResourceLimiter) (b : Bool) (x y : Read)
      → IsBalanced start conn base (done x)
      → IsBalanced start conn base (done y)
      → IsBalanced start conn base (done (if b then x else y))
  done_if base true x y p q = p
  done_if base false x y p q = q

  with_token-IsBalanced :
      (base : ResourceLimiter) (o : Option ReqLimiter) (next : ReqLimiter → Read)
      → o ≡ get_token start conn
      → ((held : ReqLimiter)
          → HasToken start conn held
          → IsBalanced start conn base (done (next held)))
      → IsBalanced start conn base (with_token o next)
  unfolding with_token
  with_token-IsBalanced base none next e h = unfinished
  with_token-IsBalanced base (some held) next e h = h held (taken (sym e))

  -- An error before anything was counted.
  early :
      (e : Option RequestError) (req : Request) (input : List ℕ) (rl : BeansdbRl)
      → IsBalanced start conn rl.set_data (done (ended e req input start rl))
  early e req input rl = unchanged (ended e req input start rl) (same refl) (kept refl)

  -- An error behind the counting of the value.
  gave_up-IsBalanced :
      (base : ResourceLimiter) (e : RequestError) (req : Request) (item : Item) (rest : List ℕ)
      (limiter : ReqLimiter) (rl : BeansdbRl)
      → rl.set_data ≡ add_size_and_count base (pos item.array.cap)
      → HasToken start conn limiter
      → IsBalanced start conn base (done (gave_up e req item rest limiter rl))
  unfolding gave_up
  gave_up-IsBalanced base e req item rest limiter rl h tk =
      unchanged _
        (given_back item.array.cap (
          set_data-free item.array
            (record rl { set_data = sub_size_and_count rl.set_data (pos item.array.cap) })
          ∙ ap (λ l. sub_size_and_count l (pos item.array.cap)) h))
        tk

  read_end-IsBalanced :
      (base : ResourceLimiter) (req : Request) (item : Item) (input : List ℕ) (limiter : ReqLimiter)
      (rl : BeansdbRl)
      → rl.set_data ≡ add_size_and_count base (pos item.array.cap)
      → HasToken start conn limiter
      → IsBalanced start conn base (done (read_end req item input limiter rl))
  unfolding read_end
  read_end-IsBalanced base req item [] limiter rl h tk =
      gave_up-IsBalanced base network_error req item [] limiter rl h tk
  read_end-IsBalanced base req item (c1 ∷ []) limiter rl h tk =
      gave_up-IsBalanced base network_error req item [] limiter rl h tk
  read_end-IsBalanced base req item (c1 ∷ c2 ∷ rest) limiter rl h tk =
      done_if base (not (c1 == 13) || not (c2 == 10))
        (gave_up bad_data_chunk req item rest limiter rl)
        (ended none (with_item req item) rest limiter rl)
        (gave_up-IsBalanced base bad_data_chunk req item rest limiter rl h tk)
        (received (ended none (with_item req item) rest limiter rl) refl tk)

  read_data-IsBalanced :
      (base : ResourceLimiter) (req : Request) (item : Item) (size : ℕ) (input : List ℕ)
      (limiter : ReqLimiter) (rl : BeansdbRl)
      → rl.set_data ≡ add_size_and_count base (pos item.array.cap)
      → HasToken start conn limiter
      → IsBalanced start conn base (done (read_data req item size input limiter rl))
  unfolding read_data
  read_data-IsBalanced base req item size input limiter rl h tk =
      let full = holding item (record item.array { body = take size input }) in
      done_if base (ltb (length input) size) (gave_up network_error req item [] limiter rl)
        (read_end req full (drop size input) limiter rl)
        (gave_up-IsBalanced base network_error req item [] limiter rl h tk)
        (read_end-IsBalanced base req full (drop size input) limiter rl h tk)

  module _ (conf : McConfig) (malloc : ℕ → ℕ) where
    read_value-IsBalanced :
        (req : Request) (item : Item) (size : ℤ) (input : List ℕ) (limiter : ReqLimiter)
        (rl : BeansdbRl)
        → HasToken start conn limiter
        → IsBalanced start conn rl.set_data
            (done (read_value conf malloc req item size input limiter rl))
    unfolding read_value
    read_value-IsBalanced req item (negsuc n) input limiter rl tk = unchanged _ (same refl) tk
    read_value-IsBalanced req item (pos size) input limiter rl tk =
        let unmoved = set_data-alloc conf malloc item.array size rl in
        let got = alloc conf malloc item.array size rl in
        let counted = record got.2 {
          set_data = add_size_and_count got.2.set_data (pos got.1.cap);
        } in
        done_if rl.set_data (not got.0) _ _ (unchanged _ (same unmoved) tk) (
          read_data-IsBalanced rl.set_data req (holding item got.1) size input limiter counted
            (ap (λ s. add_size_and_count s (pos got.1.cap)) unmoved) tk)

    read_tail-IsBalanced :
        (cmd : Command) (req : Request) (item : Item) (size : ℤ) (more : List (List ℕ))
        (input : List ℕ) (rl : BeansdbRl)
        → IsBalanced start conn rl.set_data
            (read_tail conf malloc conn cmd req item size more input start rl)
    unfolding read_tail
    read_tail-IsBalanced cas req item size [] input rl = early _ _ input rl
    read_tail-IsBalanced cas req item size (w ∷ more) input rl =
        if-IsBalanced rl.set_data (bad_noreply more) _ _ (early _ _ input rl) (
          with_token-IsBalanced rl.set_data (get_token start conn) _ refl
            (λ held tk. read_value-IsBalanced _ _ size input held rl tk))
    read_tail-IsBalanced cmd req item size more input rl =
        if-IsBalanced rl.set_data (bad_noreply more) _ _ (early _ _ input rl) (
          with_token-IsBalanced rl.set_data (get_token start conn) _ refl
            (λ held tk. read_value-IsBalanced _ _ size input held rl tk))

    read_numbers-IsBalanced :
        (req : Request) (flag exptime size : Option ℤ) (more : List (List ℕ)) (input : List ℕ)
        (rl : BeansdbRl)
        → IsBalanced start conn rl.set_data
            (read_numbers conf malloc conn req flag exptime size more input start rl)
    unfolding read_numbers
    read_numbers-IsBalanced req (some flag) (some exptime) (some size) more input rl =
        if-IsBalanced rl.set_data (not (is_valid_value_size conf (to_u32 size))) _ _
          (early _ _ input rl)
          (if-IsBalanced rl.set_data
            (ltb_ℤ (pos conf.body_big) size && ltb_ℤ (pos conf.flush_max) rl.flush_data.size) _ _
            (early _ _ input rl) (read_tail-IsBalanced req.cmd req _ size more input rl))
    read_numbers-IsBalanced req none exptime size more input rl = early _ _ input rl
    read_numbers-IsBalanced req (some flag) none size more input rl = early _ _ input rl
    read_numbers-IsBalanced req (some flag) (some exptime) none more input rl = early _ _ input rl

    read_storage-IsBalanced :
        (req : Request) (args : List (List ℕ)) (input : List ℕ) (rl : BeansdbRl)
        → IsBalanced start conn rl.set_data (read_storage conf malloc conn req args input start rl)
    unfolding read_storage
    read_storage-IsBalanced req (key ∷ flag ∷ exptime ∷ size ∷ more) input rl =
        if-IsBalanced rl.set_data (ltb 2 (length more)) _ _ (early _ _ input rl)
          (read_numbers-IsBalanced _ (atoi flag) (atoi exptime) (atoi size) more input rl)
    read_storage-IsBalanced req [] input rl = early _ _ input rl
    read_storage-IsBalanced req (a ∷ []) input rl = early _ _ input rl
    read_storage-IsBalanced req (a ∷ b ∷ []) input rl = early _ _ input rl
    read_storage-IsBalanced req (a ∷ b ∷ c ∷ []) input rl = early _ _ input rl

    read_get-IsBalanced :
        (req : Request) (args : List (List ℕ)) (input : List ℕ) (rl : BeansdbRl)
        → IsBalanced start conn rl.set_data (read_get conf malloc conn req args input start rl)
    unfolding read_get
    read_get-IsBalanced req [] input rl = early _ _ input rl
    read_get-IsBalanced req (key ∷ keys) input rl =
        with_token-IsBalanced rl.set_data (get_token start conn) _ refl
          (λ held tk. received _ refl tk)

    read_delete-IsBalanced :
        (req : Request) (args : List (List ℕ)) (input : List ℕ) (rl : BeansdbRl)
        → IsBalanced start conn rl.set_data (read_delete conf malloc conn req args input start rl)
    unfolding read_delete
    read_delete-IsBalanced req [] input rl = early _ _ input rl
    read_delete-IsBalanced req (key ∷ more) input rl =
        if-IsBalanced rl.set_data (ltb 2 (length more)) _ _ (early _ _ input rl)
          (early _ _ input rl)

    read_incr-IsBalanced :
        (req : Request) (args : List (List ℕ)) (input : List ℕ) (rl : BeansdbRl)
        → IsBalanced start conn rl.set_data (read_incr conf malloc conn req args input start rl)
    unfolding read_incr
    read_incr-IsBalanced req [] input rl = early _ _ input rl
    read_incr-IsBalanced req (key ∷ []) input rl = early _ _ input rl
    read_incr-IsBalanced req (key ∷ value ∷ more) input rl =
        if-IsBalanced rl.set_data (ltb 1 (length more)) _ _ (early _ _ input rl) (
          with_token-IsBalanced rl.set_data (get_token start conn) _ refl
            (λ held tk. received _ refl tk))

    read_args-IsBalanced :
        (cmd : Command) (req : Request) (args : List (List ℕ)) (input : List ℕ) (rl : BeansdbRl)
        → IsBalanced start conn rl.set_data (read_args conf malloc conn cmd req args input start rl)
    unfolding read_args
    read_args-IsBalanced get req args input rl = read_get-IsBalanced req args input rl
    read_args-IsBalanced gets req args input rl = read_get-IsBalanced req args input rl
    read_args-IsBalanced delete req args input rl = read_delete-IsBalanced req args input rl
    read_args-IsBalanced incr req args input rl = read_incr-IsBalanced req args input rl
    read_args-IsBalanced decr req args input rl = read_incr-IsBalanced req args input rl
    read_args-IsBalanced stats req args input rl = early _ _ input rl
    read_args-IsBalanced verbosity req args input rl = early _ _ input rl
    read_args-IsBalanced quit req args input rl = early _ _ input rl
    read_args-IsBalanced version req args input rl = early _ _ input rl
    read_args-IsBalanced flush_all req args input rl = early _ _ input rl
    read_args-IsBalanced (other text) req args input rl = early _ _ input rl
    read_args-IsBalanced set req args input rl = read_storage-IsBalanced req args input rl
    read_args-IsBalanced add req args input rl = read_storage-IsBalanced req args input rl
    read_args-IsBalanced replace req args input rl = read_storage-IsBalanced req args input rl
    read_args-IsBalanced cas req args input rl = read_storage-IsBalanced req args input rl
    read_args-IsBalanced append req args input rl = read_storage-IsBalanced req args input rl
    read_args-IsBalanced prepend req args input rl = read_storage-IsBalanced req args input rl

    read_parts-IsBalanced :
        (req : Request) (parts : List (List ℕ)) (input : List ℕ) (rl : BeansdbRl)
        → IsBalanced start conn rl.set_data (read_parts conf malloc conn req parts input start rl)
    unfolding read_parts
    read_parts-IsBalanced req [] input rl = early _ _ input rl
    read_parts-IsBalanced req (part ∷ args) input rl =
        read_args-IsBalanced (command_of part) _ args input rl

    read_line-IsBalanced :
        (req : Request) (line : Option (List ℕ × List ℕ)) (rl : BeansdbRl)
        → IsBalanced start conn rl.set_data (read_line conf malloc conn req line start rl)
    unfolding read_line
    read_line-IsBalanced req none rl = early _ _ [] rl
    read_line-IsBalanced req (some (line, rest)) rl =
        if-IsBalanced rl.set_data (not (ends_crlf line)) _ _ (early _ _ rest rl)
          (read_parts-IsBalanced req (split_keys line) rest rl)

    pub read_request-IsBalanced :
        (req : Request) (input : List ℕ) (rl : BeansdbRl)
        → IsBalanced start conn rl.set_data (read_request conf malloc conn req input start rl)
    unfolding read_request
    read_request-IsBalanced req input rl = read_line-IsBalanced req (read_string input) rl

abbrev error_of : ReadStep → Option RequestError
error_of waits = none
error_of (done r) = r.error

abbrev level_of : ResourceLimiter → ReadStep → ResourceLimiter
level_of base waits = base
level_of base (done r) = r.rl.set_data

Settled-error_of :
    (start : ReqLimiter) (conn : ℕ) (base : ResourceLimiter) (s : ReadStep) (e : RequestError)
    → IsBalanced start conn base s
    → error_of s ≡ some e
    → Settled base (level_of base s)
Settled-error_of start conn base s e unfinished err = same refl
Settled-error_of start conn base s e (received r fine tk) err =
    absurd (none_not_some (sym fine ∙ err))
  where
    none_not_some : none ≢ some e
    none_not_some p = cc
Settled-error_of start conn base s e (unchanged r settled tk) err = settled

-- Where the counters of SetData are in the range of int64 and reading a request ends with an error,
-- whatever the input was, SetData is at the level where it was before.
pub read_request_error_level :
    (start : ReqLimiter) (conn : ℕ) (conf : McConfig) (malloc : ℕ → ℕ) (req : Request)
    (input : List ℕ) (rl : BeansdbRl) (r : Read) (e : RequestError)
    → IsRange rl.set_data
    → read_request conf malloc conn req input start rl ≡ done r
    → r.error ≡ some e
    → SameLevel r.rl.set_data rl.set_data
read_request_error_level start conn conf malloc req input rl r e range ends err =
    Settled-SameLevel rl.set_data r.rl.set_data range (
      subst (λ s. Settled rl.set_data (level_of rl.set_data s)) ends
        (Settled-error_of start conn rl.set_data (read_request conf malloc conn req input start rl)
          e (read_request-IsBalanced start conn conf malloc req input rl) (ap error_of ends ∙ err)))
