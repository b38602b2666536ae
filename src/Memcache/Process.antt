-- ===== src/Memcache/Process.antt =====
-- `Request.Process` and `Request.Check` of memcache/protocol.go, over the interface of memcache/store.go,
-- and the counters of memcache/stats.go. What the system reports of the process is a parameter.
pub mod Expected
pub mod Written
pub mod Answers
use gobeansdb.Base.{
  ℕ, zero, suc, ◌+◌, ◌-◌, ◌%◌, ◌^◌, Bool, true, false, not, ◌&&◌, ◌||◌, Option, none, some, List,
  [], ◌∷◌, ◌++◌, length, ltb, leb, ◌==◌, if◌then◌else◌, bytes_eq,
}
use gobeansdb.Base.Int.{ℤ, pos, negsuc, add64, sub64}
use gobeansdb.Config.{McConfig, is_valid_key_size}
use gobeansdb.Cmem.{CArray, BeansdbRl}
use gobeansdb.Memcache.{
  Command, Request, Item, Response, new_response, Status, value, stat, incr_status, decr_status,
  stored, not_stored, exists, deleted, not_found, ok_status, server_error, client_error,
  version_status, other_status,
}
use gobeansdb.Memcache.{
  get, gets, set, add, replace, cas, append, prepend, delete, incr, decr, stats, quit, version,
  flush_all, verbosity, other,
}
use gobeansdb.Memcache.Text.{codes, itoa, atoi}
use gobeansdb.Memcache.Send.{crlf, spaced}

-- A result or the text of an error.
pub data Fallible {ℓ} (A : Type ℓ) : Type ℓ where
  success : A → Fallible A
  failure : List ℕ → Fallible A

-- The store, with the counters of memory that it shares with the protocol.
pub record World (S : Type 0) : Type 0 where
  pub store : S
  pub rl : BeansdbRl

-- The methods of StorageClient that are called here.
pub record StorageClient (S : Type 0) : Type 0 where
  pub do_get : List ℕ → World S → Fallible (Option Item) × World S
  pub do_get_multi : List (List ℕ) → World S → Fallible (List (List ℕ × Item)) × World S
  pub do_set : List ℕ → Item → Bool → World S → Fallible Bool × World S
  pub do_append : List ℕ → List ℕ → World S → Fallible Bool × World S
  pub do_incr : List ℕ → ℤ → World S → Fallible ℤ × World S
  pub do_delete : List ℕ → World S → Fallible Bool × World S
  pub do_len : World S → ℕ
  pub do_process : List ℕ → List (List ℕ) → World S → List ℕ × List ℕ × World S

-- The counters of Stats.
pub record Stats : Type 0 where
  pub cmd_get : ℤ
  pub cmd_set : ℤ
  pub cmd_delete : ℤ
  pub get_hits : ℤ
  pub get_misses : ℤ
  pub curr_connections : ℤ
  pub total_connections : ℤ
  pub bytes_read : ℤ
  pub bytes_written : ℤ
  pub slow_cmd : ℤ

-- What the system reports.
pub record System : Type 0 where
  pub time : ℤ
  pub uptime : ℤ
  pub pid : ℤ
  pub threads : ℤ
  pub rusage_user : ℤ
  pub rusage_system : ℤ
  pub rusage_maxrss : ℤ

-- `Stats`, with the two entries that Process sets to the number of items.
abbrev pub stats_table : Stats → System → ℤ → List (List ℕ × ℤ)
stats_table s system n =
    (codes "cmd_get", s.cmd_get)
    ∷ (codes "cmd_set", s.cmd_set)
    ∷ (codes "cmd_delete", s.cmd_delete)
    ∷ (codes "get_hits", s.get_hits)
    ∷ (codes "get_misses", s.get_misses)
    ∷ (codes "curr_connections", s.curr_connections)
    ∷ (codes "total_connections", s.total_connections)
    ∷ (codes "bytes_read", s.bytes_read)
    ∷ (codes "bytes_written", s.bytes_written)
    ∷ (codes "slow_cmd", s.slow_cmd)
    ∷ (codes "time", system.time)
    ∷ (codes "uptime", system.uptime)
    ∷ (codes "pid", system.pid)
    ∷ (codes "threads", system.threads)
    ∷ (codes "rusage_user", system.rusage_user)
    ∷ (codes "rusage_system", system.rusage_system)
    ∷ (codes "rusage_maxrss", system.rusage_maxrss)
    ∷ (codes "avail_space", pos 0)
    ∷ (codes "total_space", pos 0)
    ∷ (codes "curr_items", n)
    ∷ (codes "total_items", n)
    ∷ []

unfoldable pub value_of : List (List ℕ × ℤ) → List ℕ → ℤ
value_of [] key = pos 0
value_of ((k, v) ∷ entries) key =
    let rest = value_of entries key in if bytes_eq k key then v else rest

-- `STAT %s %d\r\n`
abbrev pub stat_line : List ℕ → ℤ → List ℕ
stat_line key v = codes "STAT" ++ (spaced (key ∷ itoa v ∷ []) ++ crlf)

unfoldable pub stat_keys : List (List ℕ × ℤ) → List (List ℕ) → List ℕ
stat_keys table [] = []
stat_keys table (k ∷ ks) = stat_line k (value_of table k) ++ stat_keys table ks

unfoldable pub stat_all : List (List ℕ × ℤ) → List ℕ → List ℕ
stat_all [] version_text = codes "STAT" ++ (spaced (codes "version" ∷ version_text ∷ []) ++ crlf)
stat_all ((k, v) ∷ entries) version_text = stat_line k v ++ stat_all entries version_text

abbrev pub stats_msg : List (List ℕ × ℤ) → List (List ℕ) → List ℕ → List ℕ
stats_msg table [] version_text = stat_all table version_text
stats_msg table (k ∷ ks) version_text = stat_keys table (k ∷ ks)

-- The response, nil as `none`, the text of the error that is returned, and the state afterwards.
pub record Processed (S : Type 0) : Type 0 where
  pub resp : Option Response
  pub err : Option (List ℕ)
  pub counters : Stats
  pub world : World S

abbrev pub answered : {S : Type 0} → Response → Option (List ℕ) → Stats → World S → Processed S
answered resp err s world = record { resp = some resp; err = err; counters = s; world = world }

abbrev pub with_status : Response → Status → Response
with_status resp status = record resp { status = status }

abbrev pub failed_with : Response → List ℕ → Response
failed_with resp text = record resp { status = server_error; msg = text }

unfoldable pub total_body : List (List ℕ × Item) → ℕ
total_body [] = 0
total_body ((k, item) ∷ items) = length item.array.body + total_body items

abbrev pub count_gets : Stats → ℕ → ℕ → Stats
count_gets s keys hits = record s {
  cmd_get = add64 s.cmd_get (pos keys);
  get_hits = add64 s.get_hits (pos hits);
  get_misses =
      add64 s.get_misses (if leb hits keys then pos (keys - hits) else negsuc (hits - keys - 1));
}

abbrev pub count_written : Stats → ℕ → Stats
count_written s n = record s { bytes_written = add64 s.bytes_written (pos n) }

abbrev pub count_set : Stats → Item → Stats
count_set s item = record s {
  cmd_set = add64 s.cmd_set (pos 1);
  bytes_read = add64 s.bytes_read (pos (length item.array.body));
}

unfoldable pub all_keys_valid : McConfig → List (List ℕ) → Bool
all_keys_valid conf [] = true
all_keys_valid conf (k ∷ ks) = is_valid_key_size conf (length k % 2 ^ 32) && all_keys_valid conf ks

module _ {S : Type 0} where
  pub got_multi : Response → ℕ → Stats → Fallible (List (List ℕ × Item)) × World S → Processed S
  got_multi resp keys s (failure text, world) = answered (failed_with resp text) (some text) s world
  got_multi resp keys s (success items, world) =
      answered (record resp { items = items }) none
        (count_written (count_gets s keys (length items)) (total_body items)) world

  -- `cmd_get` is counted before the call.
  pub got_one : Response → List ℕ → Stats → Fallible (Option Item) × World S → Processed S
  got_one resp key s (failure text, world) =
      answered (failed_with resp text) (some text) (record s { cmd_get = add64 s.cmd_get (pos 1) })
        world
  got_one resp key s (success none, world) = answered resp none (count_gets s 1 0) world
  got_one resp key s (success (some item), world) =
      answered (record resp { items = (key, item) ∷ [] }) none
        (count_written (count_gets s 1 1) (length item.array.body)) world

  -- What is answered to `Set`, `Append` and `Delete`.
  pub said : Response → Status → Status → Stats → Fallible Bool × World S → Processed S
  said resp yes_status no_status s (failure text, world) =
      answered (failed_with resp text) (some text) s world
  said resp yes_status no_status s (success suc_flag, world) =
      answered (with_status resp (if suc_flag then yes_status else no_status)) none s world

  -- The error of `Incr` is not returned: a variable of the case shadows the result.
  pub incremented : Response → Stats → Fallible ℤ × World S → Processed S
  incremented resp s (failure text, world) = answered (failed_with resp text) none s world
  incremented resp s (success n, world) =
      answered (record resp { status = incr_status; msg = itoa n }) none s world

  module _ (conf : McConfig) (client : StorageClient S) (system : System)
      (version_text : List ℕ) where
    pub process_incr : Response → List ℕ → Option ℤ → Stats → World S → Processed S
    unfolding incremented
    process_incr resp key none s world =
        answered (record resp { status = client_error; msg = codes "invalid number" }) none s world
    process_incr resp key (some n) s world = incremented resp s (client.do_incr key n world)

    -- The commands with an item, of the first key; without one the code panics.
    pub process_item :
        Command
        → Response
        → List (List ℕ)
        → Option Item
        → Bool
        → Stats
        → World S
        → Option (Processed S)
    unfolding said process_incr
    process_item append resp (key ∷ keys) (some item) no_reply s world = some (
        said resp stored not_stored (count_set s item) (client.do_append key item.array.body world))
    process_item incr resp (key ∷ keys) (some item) no_reply s world =
        some (process_incr resp key (atoi item.array.body) (count_set s item) world)
    process_item cmd resp (key ∷ keys) (some item) no_reply s world =
        some
          (said resp stored not_stored (count_set s item) (client.do_set key item no_reply world))
    process_item cmd resp keys item no_reply s world = none

    pub process_get : Response → List (List ℕ) → Stats → World S → Option (Processed S)
    unfolding got_one got_multi
    process_get resp [] s world = none
    process_get resp (key ∷ []) s world = some (got_one resp key s (client.do_get key world))
    process_get resp (key ∷ k2 ∷ keys) s world =
        some (
          got_multi resp (length (key ∷ k2 ∷ keys)) s (client.do_get_multi (key ∷ k2 ∷ keys) world))

    pub process_keys : Bool → Response → List (List ℕ) → Stats → World S → Option (Processed S)
    unfolding process_get
    process_keys with_cas resp keys s world =
        if all_keys_valid conf keys
        then process_get (record resp { status = value; with_cas = with_cas }) keys s world
        else some (
            answered (record resp { status = client_error; msg = codes "key length error" }) none s
              world)

    -- `cmd_delete` is counted unless the store fails.
    pub process_delete : Response → List (List ℕ) → Stats → World S → Option (Processed S)
    unfolding said
    process_delete resp [] s world = none
    process_delete resp (key ∷ keys) s world =
        let result = client.do_delete key world in
        some (
          said resp deleted not_found
            (elim result.0 [
              | success b ↦ record s { cmd_delete = add64 s.cmd_delete (pos 1) }
              | failure text ↦ s
            ])
            result)

    -- The switch of `Process`.
    pub process_as : Command → Request → Response → Stats → World S → Option (Processed S)
    unfolding process_keys process_item process_delete
    process_as get req resp s world = process_keys false resp req.keys s world
    process_as gets req resp s world = process_keys true resp req.keys s world
    process_as set req resp s world = process_item set resp req.keys req.item req.no_reply s world
    process_as add req resp s world = process_item set resp req.keys req.item req.no_reply s world
    process_as replace req resp s world =
        process_item set resp req.keys req.item req.no_reply s world
    process_as cas req resp s world = process_item set resp req.keys req.item req.no_reply s world
    process_as append req resp s world =
        process_item append resp req.keys req.item req.no_reply s world
    process_as incr req resp s world = process_item incr resp req.keys req.item req.no_reply s world
    process_as delete req resp s world = process_delete resp req.keys s world
    process_as stats req resp s world = some (
        answered
          (record resp {
            status = stat;
            msg =
                stats_msg (stats_table s system (pos (client.do_len world))) req.keys version_text;
          })
          none s world)
    process_as version req resp s world =
        some (answered (record resp { status = version_status; msg = version_text }) none s world)
    process_as verbosity req resp s world =
        some (answered (with_status resp ok_status) none s world)
    process_as flush_all req resp s world =
        some (answered (with_status resp ok_status) none s world)
    process_as cmd req resp s world =
        some (record { resp = none; err = none; counters = s; world = world })

    -- `Process`
    unfoldable pub process : Request → Stats → World S → Option (Processed S)
    unfolding process_as
    process req s world =
        process_as req.cmd req (record new_response { noreply = req.no_reply }) s world

unfoldable pub contain : List (List ℕ) → List ℕ → Bool
contain [] v = false
contain (w ∷ ws) v = bytes_eq w v || contain ws v

unfoldable pub all_asked : List (List ℕ) → List (List ℕ × Item) → Bool
all_asked keys [] = true
all_asked keys ((k, item) ∷ items) = contain keys k && all_asked keys items

abbrev pub set_status : Status → Bool
set_status stored = true
set_status not_stored = true
set_status exists = true
set_status not_found = true
set_status _ = false

abbrev pub incr_like : Status → Bool
incr_like incr_status = true
incr_like decr_status = true
incr_like not_found = true
incr_like _ = false

-- `Check`, true for no error.
unfoldable pub check : Request → Response → Bool
check req resp = elim req.cmd [
  | get ↦ all_asked req.keys resp.items
  | gets ↦ all_asked req.keys resp.items
  | incr ↦ incr_like resp.status
  | decr ↦ incr_like resp.status
  | set ↦ set_status resp.status
  | add ↦ set_status resp.status
  | replace ↦ set_status resp.status
  | append ↦ set_status resp.status
  | prepend ↦ set_status resp.status
  | _ ↦ true
]
