-- ===== src/Memcache/Reply.antt =====
-- `Response.Read` of memcache/protocol.go, with which a client reads an answer.
pub mod Ends
use gobeansdb.Base.{
  ℕ, zero, suc, ◌-◌, Bool, true, false, not, ◌&&◌, ◌||◌, Option, none, some, List, [], ◌∷◌, ◌++◌,
  length, take, drop, ltb, ◌==◌, if◌then◌else◌, bytes_eq,
}
use gobeansdb.Base.Int.{ℤ, pos, negsuc, to_u32}
use gobeansdb.Config.{McConfig, is_valid_value_size}
use gobeansdb.Cmem.{CArray, BeansdbRl, empty_array, alloc, free, add_size_and_count}
use gobeansdb.Memcache.{
  Item, new_item, Response, Status, value, stat, incr_status, stored, not_stored, deleted,
  not_found, end_status, ok_status, error, server_error, client_error, other_status,
}
use gobeansdb.Memcache.Text.{codes, read_string, split_keys, atoi}
use gobeansdb.Memcache.Send.{is_meta_key, status_text}

pub data ReplyError : Type 0 where
  cut invalid_response too_large no_memory unknown_response panicked : ReplyError

-- The error or nil as `none`, and the state afterwards.
pub record Reply : Type 0 where
  pub err : Option ReplyError
  pub resp : Response
  pub rest : List ℕ
  pub rl : BeansdbRl

abbrev pub replied : Option ReplyError → Response → List ℕ → BeansdbRl → Reply
replied e resp rest rl = record { err = e; resp = resp; rest = rest; rl = rl }

-- `resp.Items[key] = item`
unfoldable pub put_reply : List (List ℕ × Item) → List ℕ → Item → List (List ℕ × Item)
put_reply [] key item = (key, item) ∷ []
put_reply ((k, old) ∷ rest) key item =
    let later = put_reply rest key item in
    if bytes_eq k key then (key, item) ∷ rest else (k, old) ∷ later

-- What a line makes of the loop: another round, or the end.
pub data Turn : Type 0 where
  again : Response → List ℕ → BeansdbRl → Turn
  ends : Reply → Turn

abbrev pub known : List Status
known =
    end_status ∷ stored ∷ not_stored ∷ deleted ∷ not_found ∷ ok_status ∷ error ∷ server_error
    ∷ client_error ∷ value ∷ stat ∷ []

abbrev pub status_among : List Status → List ℕ → Status
status_among [] text = other_status text
status_among (s ∷ ss) text =
    let rest = status_among ss text in if bytes_eq text (status_text s) then s else rest

-- The optional unique number: no word, a number, or no number.
pub reply_cas : List (List ℕ) → Option ℤ
reply_cas [] = some (pos 0)
reply_cas (w ∷ []) = atoi w
reply_cas (w ∷ v ∷ ws) = some (pos 0)

-- `if len(parts) > 1 { resp.Msg = parts[1] }`
pub with_word : Response → List (List ℕ) → Response
with_word resp [] = resp
with_word resp (w ∷ ws) = record resp { msg = w }

module _ (conf : McConfig) (malloc : ℕ → ℕ) where
  -- From `Alloc` on. The two bytes behind the value are not looked at.
  pub value_body : Response → List ℕ → Item → ℤ → List ℕ → BeansdbRl → Turn
  value_body resp key item (negsuc n) input rl = ends (replied (some panicked) resp input rl)
  value_body resp key item (pos size) input rl =
      let (got, arr, rl') = alloc conf malloc empty_array size rl in
      let full = record item { array = record arr { body = take size input } } in
      let counted =
        if is_meta_key key
        then rl'
        else record rl' { get_data = add_size_and_count rl'.get_data (pos arr.cap) } in
      if not got
      then ends (replied (some no_memory) resp input rl')
      else if ltb (length input) size
      then ends (replied (some cut) resp [] (free arr rl').1)
      else again (record resp { items = put_reply resp.items key full }) (drop 2 (drop size input))
          counted

  pub with_cas_id : Response → List ℕ → ℤ → ℤ → Option ℤ → List ℕ → BeansdbRl → Turn
  unfolding value_body
  with_cas_id resp key flag size none input rl =
      ends (replied (some invalid_response) resp input rl)
  with_cas_id resp key flag size (some n) input rl =
      value_body resp key (record new_item { flag = flag; cas_id = n }) size input rl

  pub value_numbers : Response → List ℕ → Option ℤ → Option ℤ → Option ℤ → List ℕ → BeansdbRl → Turn
  unfolding with_cas_id
  value_numbers resp key (some flag) (some size) cas_id input rl =
      if not (is_valid_value_size conf (to_u32 size))
      then ends (replied (some too_large) resp input rl)
      else with_cas_id resp key flag size cas_id input rl
  value_numbers resp key flag size cas_id input rl =
      ends (replied (some invalid_response) resp input rl)

  pub read_value_line : Response → List (List ℕ) → List ℕ → BeansdbRl → Turn
  unfolding value_numbers reply_cas
  read_value_line resp (key ∷ flag ∷ size ∷ more) input rl =
      value_numbers resp key (atoi flag) (atoi size) (reply_cas more) input rl
  read_value_line resp args input rl = ends (replied (some invalid_response) resp input rl)

  pub read_stat_line : Response → List (List ℕ) → List ℕ → BeansdbRl → Turn
  read_stat_line resp (key ∷ text ∷ []) input rl =
      let item = record new_item { array = record { body = text; addr = 0; cap = 0 } } in
      again (record resp { items = put_reply resp.items key item }) input rl
  read_stat_line resp args input rl = ends (replied (some invalid_response) resp input rl)

  -- Any other word has to be a number.
  pub read_number : Response → List ℕ → Option ℤ → List ℕ → BeansdbRl → Turn
  read_number resp text none input rl = ends (replied (some unknown_response) resp input rl)
  read_number resp text (some n) input rl =
      ends (replied none (record resp { status = incr_status; msg = text }) input rl)

  pub read_status : Status → Response → List (List ℕ) → List ℕ → BeansdbRl → Turn
  unfolding read_value_line read_stat_line read_number with_word
  read_status value resp args input rl = read_value_line resp args input rl
  read_status stat resp args input rl = read_stat_line resp args input rl
  read_status error resp args input rl = ends (replied none (with_word resp args) input rl)
  read_status server_error resp args input rl = ends (replied none (with_word resp args) input rl)
  read_status client_error resp args input rl = ends (replied none (with_word resp args) input rl)
  read_status (other_status text) resp args input rl = read_number resp text (atoi text) input rl
  read_status _ resp args input rl = ends (replied none resp input rl)

  pub read_words : Response → List (List ℕ) → List ℕ → BeansdbRl → Turn
  unfolding read_status
  read_words resp [] input rl = ends (replied (some invalid_response) resp input rl)
  read_words resp (word ∷ args) input rl =
      let status = status_among known word in
      read_status status (record resp { status = status }) args input rl

  -- A line of less than two bytes is a panic.
  pub read_reply_line : Response → Option (List ℕ × List ℕ) → BeansdbRl → Turn
  unfolding read_words
  read_reply_line resp none rl = ends (replied (some cut) resp [] rl)
  read_reply_line resp (some (line, rest)) rl =
      if ltb (length line) 2
      then ends (replied (some panicked) resp rest rl)
      else read_words resp (split_keys line) rest rl

  -- The loop, on fuel; each round takes a byte at least.
  pub reply_loop : ℕ → Response → List ℕ → BeansdbRl → Option Reply
  unfolding read_reply_line
  reply_loop zero resp input rl = none
  reply_loop (suc fuel) resp input rl = elim (read_reply_line resp (read_string input) rl) [
    | ends reply ↦ some reply
    | again resp' rest rl' ↦ reply_loop fuel resp' rest rl'
  ]

  -- `Response.Read`
  unfoldable pub read_response : Response → List ℕ → BeansdbRl → Option Reply
  unfolding reply_loop
  read_response resp input rl =
      reply_loop (suc (length input)) (record resp { items = [] }) input rl
