-- ===== src/Memcache/Send.antt =====
-- The writing of requests and responses, and the reading of responses, of memcache/protocol.go. A
-- writer takes every byte. The items of a response are in the order of Go's map, which is arbitrary.
use gobeansdb.Base.{
  ℕ, Bool, true, false, ◌||◌, Option, none, some, List, [], ◌∷◌, ◌++◌, length, ◌==◌, if◌then◌else◌,
}
use gobeansdb.Base.Int.{pos}
use gobeansdb.Cmem.{BeansdbRl, free, sub_size_and_count}
use gobeansdb.Memcache.{
  Command, Request, Item, name_of, Response, Status, value, stat, incr_status, decr_status, stored,
  not_stored, exists, deleted, not_found, end_status, ok_status, error, server_error, client_error,
  version_status, recv_timeout, process_timeout, other_status,
}
use gobeansdb.Memcache.{
  get, gets, set, add, replace, cas, append, prepend, delete, incr, decr, stats, quit, version,
  flush_all, verbosity, other,
}
use gobeansdb.Memcache.Text.{codes, itoa}

abbrev pub crlf : List ℕ
crlf = 13 ∷ 10 ∷ []

-- A space before each word.
abbrev pub spaced : List (List ℕ) → List ℕ
spaced [] = []
spaced (w ∷ ws) = b' ' ∷ (w ++ spaced ws)

abbrev pub noreply_words : Request → List (List ℕ)
noreply_words req = if req.no_reply then codes "noreply" ∷ [] else []

-- The body of the item; a request without an item panics.
abbrev write_item : Request → Option Item → Option (List ℕ)
write_item req none = none
write_item req (some item) = some item.array.body

abbrev write_words : Request → List (List ℕ) → List ℕ
write_words req words = name_of req.cmd ++ (spaced (words ++ noreply_words req) ++ crlf)

-- The case of "set" and the like, of the first key and the item; `none` is a panic.
write_storage : Bool → Request → List (List ℕ) → Option Item → Option (List ℕ)
write_storage with_cas req (key ∷ keys) (some item) =
    let sizes = itoa (pos (length item.array.body)) in
    let numbers = if with_cas then itoa item.cas_id ∷ sizes ∷ [] else sizes ∷ [] in
    some (
      write_words req (key ∷ itoa item.flag ∷ itoa item.exptime ∷ numbers)
      ++ (item.array.body ++ crlf))
write_storage with_cas req keys item = none

write_incr : Request → List (List ℕ) → Option Item → Option (List ℕ)
write_incr req (key ∷ keys) (some item) = some (write_words req (key ∷ item.array.body ∷ []))
write_incr req keys item = none

-- What `Request.Write` writes.
pub data Written : Type 0 where
  bytes : List ℕ → Written
  unknown_cmd : Written
  panics : Written

abbrev or_panic : Option (List ℕ) → Written
or_panic none = panics
or_panic (some out) = bytes out

write_as : Command → Request → Written
unfolding write_storage write_incr
write_as get req = bytes (write_words req req.keys)
write_as gets req = bytes (write_words req req.keys)
write_as delete req = bytes (write_words req req.keys)
write_as quit req = bytes (write_words req req.keys)
write_as version req = bytes (write_words req req.keys)
write_as stats req = bytes (write_words req req.keys)
write_as flush_all req = bytes (write_words req req.keys)
write_as set req = or_panic (write_storage false req req.keys req.item)
write_as add req = or_panic (write_storage false req req.keys req.item)
write_as replace req = or_panic (write_storage false req req.keys req.item)
write_as cas req = or_panic (write_storage true req req.keys req.item)
write_as prepend req = or_panic (write_storage false req req.keys req.item)
write_as append req = or_panic (write_storage false req req.keys req.item)
write_as incr req = or_panic (write_incr req req.keys req.item)
write_as decr req = or_panic (write_incr req req.keys req.item)
write_as verbosity req = unknown_cmd
write_as (other text) req = unknown_cmd

-- `Request.Write`
unfoldable pub write_request : Request → Written
unfolding write_as
write_request req = write_as req.cmd req

-- `resp.Status` as text.
abbrev pub status_text : Status → List ℕ
status_text value = codes "VALUE"
status_text stat = codes "STAT"
status_text incr_status = codes "INCR"
status_text decr_status = codes "DECR"
status_text stored = codes "STORED"
status_text not_stored = codes "NOT_STORED"
status_text exists = codes "EXISTS"
status_text deleted = codes "DELETED"
status_text not_found = codes "NOT_FOUND"
status_text end_status = codes "END"
status_text ok_status = codes "OK"
status_text error = codes "ERROR"
status_text server_error = codes "SERVER_ERROR"
status_text client_error = codes "CLIENT_ERROR"
status_text version_status = codes "VERSION"
status_text recv_timeout = codes "RECV_TIMEOUT"
status_text process_timeout = codes "PROCESS_TIMEOUT"
status_text (other_status text) = text

unfoldable pub write_values : Bool → List (List ℕ × Item) → List ℕ
write_values with_cas [] = codes "END" ++ crlf
write_values with_cas ((key, item) ∷ items) =
    let sizes = itoa (pos (length item.array.body)) in
    let cas_words = if with_cas then itoa item.cas_id ∷ [] else [] in
    codes "VALUE"
    ++ (spaced (key ∷ itoa item.flag ∷ sizes ∷ cas_words)
        ++ (crlf ++ (item.array.body ++ (crlf ++ write_values with_cas items))))

abbrev pub with_msg : List ℕ → List ℕ
with_msg [] = []
with_msg (c ∷ cs) = b' ' ∷ c ∷ cs

write_status : Status → Response → List ℕ
unfolding write_values
write_status value resp = write_values resp.with_cas resp.items
write_status stat resp = resp.msg ++ (codes "END" ++ crlf)
write_status incr_status resp = resp.msg ++ crlf
write_status decr_status resp = resp.msg ++ crlf
write_status status resp = status_text status ++ (with_msg resp.msg ++ crlf)

-- `Response.Write`; a message of "INCR" is a number, which `Fprintf` writes as it is.
unfoldable pub write_response : Response → List ℕ
unfolding write_status
write_response resp = if resp.noreply then [] else write_status resp.status resp

-- Whether a key is one of the internal ones; an empty key panics, and does not occur.
abbrev pub is_meta_key : List ℕ → Bool
is_meta_key [] = false
is_meta_key (c ∷ cs) = (c == b'@') || (c == b'?')

abbrev pub clean_item : List ℕ × Item → BeansdbRl → BeansdbRl
clean_item (key, item) rl =
    let counted =
      if is_meta_key key
      then rl
      else record rl { get_data = sub_size_and_count rl.get_data (pos item.array.cap) } in
    (free item.array counted).1

unfoldable pub clean_items : List (List ℕ × Item) → BeansdbRl → BeansdbRl
clean_items [] rl = rl
clean_items (entry ∷ entries) rl = clean_items entries (clean_item entry rl)

-- `CleanBuffer`
abbrev pub clean_buffer : Response → BeansdbRl → Response × BeansdbRl
clean_buffer resp rl = (record resp { items = [] }, clean_items resp.items rl)
