-- ===== src/Memcache/Receive.antt =====
-- `Request.Read` of memcache/protocol.go. A value that a failed conversion would leave in the item is
-- taken as 0.
pub mod Balance
use gobeansdb.Base.{
  ℕ, zero, suc, Bool, true, false, not, ◌&&◌, ◌||◌, Option, none, some, List, [], ◌∷◌, length, take,
  drop, ltb, leb, ◌==◌, if◌then◌else◌, bytes_eq,
}
use gobeansdb.Base.Int.{ℤ, pos, negsuc, to_u32, ltb_ℤ}
use gobeansdb.Config.{McConfig, is_valid_value_size}
use gobeansdb.Cmem.{
  CArray, BeansdbRl, empty_array, alloc, free, add_size_and_count, sub_size_and_count, add_count,
}
use gobeansdb.Memcache.{Command, Request, Item, new_item, command_of}
use gobeansdb.Memcache.{
  get, gets, set, add, replace, cas, append, prepend, delete, incr, decr, stats, quit, version,
  flush_all, verbosity, other,
}
use gobeansdb.Memcache.Text.{codes, ends_crlf, read_string, split_keys, atoi, atoi_value}
use gobeansdb.Memcache.Token.{ReqLimiter, get_token}

-- `panicked` is a run-time panic, which the caller recovers from.
pub data RequestError : Type 0 where
  network_error invalid_cmd value_too_large oom bad_data_chunk non_memcache_cmd alloc_failed
        panicked :
      RequestError

-- The error or nil as `none`, and the state afterwards.
pub record Read : Type 0 where
  pub error : Option RequestError
  pub req : Request
  pub rest : List ℕ
  pub limiter : ReqLimiter
  pub rl : BeansdbRl

pub data ReadStep : Type 0 where
  done : Read → ReadStep
  waits : ReadStep

abbrev pub ended : Option RequestError → Request → List ℕ → ReqLimiter → BeansdbRl → Read
ended e req rest limiter rl = record {
  error = e;
  req = req;
  rest = rest;
  limiter = limiter;
  rl = rl;
}

abbrev pub with_item : Request → Item → Request
with_item req item = record req { item = some item }

-- The item with another array.
abbrev pub holding : Item → CArray → Item
holding item arr = record item { array = arr }

-- An error behind the counting of the value: it is given back.
unfoldable pub gave_up : RequestError → Request → Item → List ℕ → ReqLimiter → BeansdbRl → Read
gave_up e req item rest limiter rl =
    let uncounted = record rl { set_data = sub_size_and_count rl.set_data (pos item.array.cap) } in
    let (arr, rl') = free item.array uncounted in
    ended (some e) (with_item req (holding item arr)) rest limiter rl'

-- The ending "\r\n".
unfoldable pub read_end : Request → Item → List ℕ → ReqLimiter → BeansdbRl → Read
read_end req item [] limiter rl = gave_up network_error req item [] limiter rl
read_end req item (c1 ∷ []) limiter rl = gave_up network_error req item [] limiter rl
read_end req item (c1 ∷ c2 ∷ rest) limiter rl =
    if not (c1 == 13) || not (c2 == 10)
    then gave_up bad_data_chunk req item rest limiter rl
    else ended none (with_item req item) rest limiter rl

-- `io.ReadFull`
unfoldable pub read_data : Request → Item → ℕ → List ℕ → ReqLimiter → BeansdbRl → Read
read_data req item size input limiter rl =
    if ltb (length input) size
    then gave_up network_error req item [] limiter rl
    else read_end req (holding item (record item.array { body = take size input }))
        (drop size input) limiter rl

-- Whether an optional last word is there and is not "noreply", and whether it is.
abbrev pub bad_noreply : List (List ℕ) → Bool
bad_noreply [] = false
bad_noreply (w ∷ ws) = not (bytes_eq w (codes "noreply"))

abbrev pub says_noreply : List (List ℕ) → Bool
says_noreply [] = false
says_noreply (w ∷ ws) = bytes_eq w (codes "noreply")

abbrev pub last_says_noreply : List (List ℕ) → Bool
last_says_noreply [] = false
last_says_noreply (w ∷ []) = bytes_eq w (codes "noreply")
last_says_noreply (w ∷ v ∷ ws) = last_says_noreply (v ∷ ws)

abbrev or_zero : Option ℤ → ℤ
or_zero none = pos 0
or_zero (some n) = n

pub with_token : Option ReqLimiter → (ReqLimiter → Read) → ReadStep
with_token none next = waits
with_token (some limiter) next = done (next limiter)

module _ (conf : McConfig) (malloc : ℕ → ℕ) where
  -- From `Alloc` on; a Go slice of a negative length is a panic.
  unfoldable pub read_value : Request → Item → ℤ → List ℕ → ReqLimiter → BeansdbRl → Read
  read_value req item (negsuc n) input limiter rl =
      ended (some panicked) (with_item req item) input limiter rl
  read_value req item (pos size) input limiter rl =
      let (got, arr, rl') = alloc conf malloc item.array size rl in
      if not got
      then ended (some alloc_failed) (with_item req (holding item arr)) input limiter rl'
      else read_data req (holding item arr) size input limiter
          (record rl' { set_data = add_size_and_count rl'.set_data (pos arr.cap) })

  module _ (conn : ℕ) where
    -- The words behind the length: the unique number of "cas", and "noreply".
    pub read_tail :
        Command → Request → Item → ℤ → List (List ℕ) → List ℕ → ReqLimiter → BeansdbRl → ReadStep
    unfolding with_token
    read_tail cas req item size [] input limiter rl =
        done (ended (some invalid_cmd) (with_item req item) input limiter rl)
    read_tail cas req item size (w ∷ more) input limiter rl =
        let item' = record item { cas_id = atoi_value w } in
        let req' = record req { no_reply = says_noreply more } in
        if bad_noreply more
        then done (ended (some invalid_cmd) (with_item req item') input limiter rl)
        else with_token (get_token limiter conn) (λ held. read_value req' item' size input held rl)
    read_tail cmd req item size more input limiter rl =
        let req' = record req { no_reply = says_noreply more } in
        if bad_noreply more
        then done (ended (some invalid_cmd) (with_item req item) input limiter rl)
        else with_token (get_token limiter conn) (λ held. read_value req' item size input held rl)

    -- From the converted numbers on.
    pub read_numbers :
        Request
        → Option ℤ
        → Option ℤ
        → Option ℤ
        → List (List ℕ)
        → List ℕ
        → ReqLimiter
        → BeansdbRl
        → ReadStep
    unfolding read_tail
    read_numbers req (some flag) (some exptime) (some size) more input limiter rl =
        let item = record new_item { flag = flag; exptime = exptime } in
        if not (is_valid_value_size conf (to_u32 size))
        then done (ended (some value_too_large) (with_item req item) input limiter rl)
        else if ltb_ℤ (pos conf.body_big) size && ltb_ℤ (pos conf.flush_max) rl.flush_data.size
        then done (ended (some oom) (with_item req item) input limiter rl)
        else read_tail req.cmd req item size more input limiter rl
    read_numbers req flag exptime size more input limiter rl =
        let item = record new_item { flag = or_zero flag; exptime = or_zero exptime } in
        done (ended (some invalid_cmd) (with_item req item) input limiter rl)

    -- "set" and the like, of four to six words behind the command.
    pub read_storage : Request → List (List ℕ) → List ℕ → ReqLimiter → BeansdbRl → ReadStep
    unfolding read_numbers
    read_storage req (key ∷ flag ∷ exptime ∷ size ∷ more) input limiter rl =
        if ltb 2 (length more)
        then done (ended (some invalid_cmd) req input limiter rl)
        else read_numbers (record req { keys = key ∷ [] }) (atoi flag) (atoi exptime) (atoi size)
            more input limiter rl
    read_storage req args input limiter rl = done (ended (some invalid_cmd) req input limiter rl)

    pub read_get : Request → List (List ℕ) → List ℕ → ReqLimiter → BeansdbRl → ReadStep
    unfolding with_token
    read_get req [] input limiter rl = done (ended (some invalid_cmd) req input limiter rl)
    read_get req (key ∷ keys) input limiter rl =
        with_token (get_token limiter conn)
          (λ held. ended none (record req { keys = key ∷ keys }) input held rl)

    pub read_delete : Request → List (List ℕ) → List ℕ → ReqLimiter → BeansdbRl → ReadStep
    read_delete req [] input limiter rl = done (ended (some invalid_cmd) req input limiter rl)
    read_delete req (key ∷ more) input limiter rl =
        if ltb 2 (length more)
        then done (ended (some invalid_cmd) req input limiter rl)
        else done (
            ended none (record req { keys = key ∷ []; no_reply = last_says_noreply more }) input
              limiter rl)

    pub read_incr : Request → List (List ℕ) → List ℕ → ReqLimiter → BeansdbRl → ReadStep
    unfolding with_token
    read_incr req (key ∷ value ∷ more) input limiter rl =
        let item = holding new_item (record { body = value; addr = 0; cap = 0 }) in
        let counted = record rl { set_data = add_count rl.set_data (pos 1) } in
        if ltb 1 (length more)
        then done (ended (some invalid_cmd) req input limiter rl)
        else with_token (get_token limiter conn) (λ held.
          ended none
            (record req { keys = key ∷ []; item = some item; no_reply = says_noreply more }) input
            held counted)
    read_incr req args input limiter rl = done (ended (some invalid_cmd) req input limiter rl)

    read_verbosity : Request → List (List ℕ) → Request
    read_verbosity req [] = req
    read_verbosity req (w ∷ ws) = record req { keys = w ∷ ws }

    -- The switch on the command.
    pub read_args : Command → Request → List (List ℕ) → List ℕ → ReqLimiter → BeansdbRl → ReadStep
    unfolding read_get read_storage read_delete read_incr read_verbosity
    read_args get req args input limiter rl = read_get req args input limiter rl
    read_args gets req args input limiter rl = read_get req args input limiter rl
    read_args set req args input limiter rl = read_storage req args input limiter rl
    read_args add req args input limiter rl = read_storage req args input limiter rl
    read_args replace req args input limiter rl = read_storage req args input limiter rl
    read_args cas req args input limiter rl = read_storage req args input limiter rl
    read_args append req args input limiter rl = read_storage req args input limiter rl
    read_args prepend req args input limiter rl = read_storage req args input limiter rl
    read_args delete req args input limiter rl = read_delete req args input limiter rl
    read_args incr req args input limiter rl = read_incr req args input limiter rl
    read_args decr req args input limiter rl = read_incr req args input limiter rl
    read_args stats req args input limiter rl =
        done (ended none (record req { keys = args }) input limiter rl)
    read_args verbosity req args input limiter rl =
        done (ended none (read_verbosity req args) input limiter rl)
    read_args (other text) req args input limiter rl =
        done (ended (some non_memcache_cmd) (record req { keys = args }) input limiter rl)
    read_args cmd req args input limiter rl = done (ended none req input limiter rl)

    pub read_parts : Request → List (List ℕ) → List ℕ → ReqLimiter → BeansdbRl → ReadStep
    unfolding read_args
    read_parts req [] input limiter rl = done (ended (some invalid_cmd) req input limiter rl)
    read_parts req (part ∷ args) input limiter rl =
        read_args (command_of part) (record req { cmd = command_of part }) args input limiter rl

    pub read_line : Request → Option (List ℕ × List ℕ) → ReqLimiter → BeansdbRl → ReadStep
    unfolding read_parts
    read_line req none limiter rl = done (ended (some network_error) req [] limiter rl)
    read_line req (some (line, rest)) limiter rl =
        if not (ends_crlf line)
        then done (ended (some invalid_cmd) req rest limiter rl)
        else read_parts req (split_keys line) rest limiter rl

    -- `Request.Read`
    unfoldable pub read_request : Request → List ℕ → ReqLimiter → BeansdbRl → ReadStep
    unfolding read_line
    read_request req input limiter rl = read_line req (read_string input) limiter rl
