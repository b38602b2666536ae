-- ===== src/Memcache/Tests.antt =====
-- Runs of the code of Memcache on small requests.
use gobeansdb.Base.{
  ◌^◌, ◌-◌, ℕ, suc, ◌≡◌, ◌≢◌, refl, arith, Bool, true, false, Option, none, some, List, [], ◌∷◌,
  ◌++◌, get_or, ltb, if◌then◌else◌, bytes_eq,
}
use gobeansdb.Base.Int.{ℤ, pos, negsuc, add64, sub64}
use gobeansdb.Config.{McConfig, is_valid_key_size, is_valid_value_size}
use gobeansdb.Cmem.{BeansdbRl, reset, alloc, free, copy, add_size_and_count, sub_size_and_count}
use gobeansdb.Cmem.Balance.{IsRange, SameLevel}
use gobeansdb.Memcache.{Request, Item, new_item, new_response, Status, value, stored}
use gobeansdb.Memcache.{get, set, cas, append}
use gobeansdb.Memcache.Text.{
  codes, read_string, split_words, fields, digits_of, digits_limit, atoi_value, atoi, itoa,
}
use gobeansdb.Memcache.Token.{ReqLimiter, init_tokens, get_token, put_token, take_token, give_back}
use gobeansdb.Memcache.Token.Once.{Calls, starts, gets_token, places, places-Calls, put_token-Calls}
use gobeansdb.Memcache.Receive.{
  RequestError, network_error, read_value, read_data, read_end, gave_up, Read, ReadStep, done,
  waits, read_request, panicked,
}
use gobeansdb.Memcache.Receive.Balance.{read_request_error_level}
use gobeansdb.Memcache.Send.{
  crlf, bytes, write_request, write_response, write_values, clean_items, clean_buffer,
}
use gobeansdb.Memcache.Process.{
  World, StorageClient, Stats, System, value_of, stat_keys, stat_all, total_body, all_keys_valid,
  process, check, contain, all_asked,
}
use gobeansdb.Memcache.Process.Expected.{some_key_bad, items_text, answer}
use gobeansdb.Memcache.Process.Written.{Replies}
use gobeansdb.Memcache.Process.Answers.{process_answered}
use gobeansdb.Memcache.MapStore.{
  MapData, map_store, find_item, put_item, remove_item, find_items, set_copy,
}
use gobeansdb.Memcache.Reply.{Reply, read_response, put_reply}
use gobeansdb.Memcache.Reply.Ends.{read_response_ends}
use gobeansdb.Memcache.Serve.{Conn, serve_once, serve, served, waiting, ServeStep, finish, release}
use gobeansdb.Memcache.Serve.Release.{IsReleased, serve_once-IsReleased, serve-IsReleased}

abbrev conf : McConfig
conf = record {
  max_key_len = 250;
  max_req = 2;
  body_max = 1000;
  body_big = 500;
  body_in_c = 4;
  flush_max = 1000;
}

abbrev malloc : ℕ → ℕ
malloc n = suc n

abbrev rl : BeansdbRl
rl = record { alloc_rl = reset; get_data = reset; set_data = reset; flush_data = reset }

abbrev counters : Stats
counters = record {
  cmd_get = pos 0;
  cmd_set = pos 0;
  cmd_delete = pos 0;
  get_hits = pos 0;
  get_misses = pos 0;
  curr_connections = pos 0;
  total_connections = pos 0;
  bytes_read = pos 0;
  bytes_written = pos 0;
  slow_cmd = pos 0;
}

abbrev system : System
system = record {
  time = pos 0;
  uptime = pos 0;
  pid = pos 1;
  threads = pos 1;
  rusage_user = pos 0;
  rusage_system = pos 0;
  rusage_maxrss = pos 0;
}

abbrev req : Request
req = record { cmd = get; keys = []; item = none; no_reply = false }

abbrev limiter : ReqLimiter
limiter = init_tokens conf 2

-- The first connection has a token.
abbrev busy : ReqLimiter
busy = record {
  chan = 1 ∷ [];
  owners = some 0 ∷ none ∷ [];
  histories = true ∷ false ∷ [];
  token = 0 ∷ 0 ∷ [];
  working = true ∷ false ∷ [];
}

got_busy : get_token limiter 0 ≡ some busy
unfolding get_token take_token
got_busy = refl

limiter-Calls : Calls 2 2 limiter
limiter-Calls = starts

busy-Calls : Calls 2 2 busy
busy-Calls = gets_token limiter busy 0 starts (omega arith) refl got_busy

places-Calls_example : places 0 busy ≡ (if ltb 0 2 then 1 else 0)
places-Calls_example = places-Calls 2 2 busy 0 busy-Calls

put_token-Calls_example :
    (rl' : ReqLimiter) × (put_token busy 0 ≡ some rl') × (get_or rl'.working 0 false ≡ false)
put_token-Calls_example = put_token-Calls 2 2 busy 0 busy-Calls (omega arith) refl

rl-IsRange : IsRange rl.set_data
rl-IsRange = record { count = omega arith; size = omega arith }

-- A value that is cut short.
abbrev short : List ℕ
short = codes "set k 0 0 3" ++ (crlf ++ codes "ab")

abbrev short_read : Read
short_read = record {
  error = some network_error;
  req = record {
    cmd = set;
    keys = codes "k" ∷ [];
    item = some (record new_item { array = record { body = 0 ∷ 0 ∷ 0 ∷ []; addr = 0; cap = 3 } });
    no_reply = false;
  };
  rest = [];
  limiter = busy;
  rl = record rl {
    set_data = record { count = pos 0; size = pos 0; max_count = pos 1; max_size = pos 3 };
  };
}

short_lem : read_request conf malloc 0 req short limiter rl ≡ done short_read
unfolding bytes_eq read_request read_value read_data read_end gave_up read_string fields split_words
    atoi get_token take_token alloc free is_valid_value_size add_size_and_count sub_size_and_count
    add64 sub64
short_lem = refl

read_request_error_level_example : SameLevel short_read.rl.set_data reset
read_request_error_level_example =
    read_request_error_level limiter 0 conf malloc req short rl short_read network_error rl-IsRange
      short_lem refl

-- A length that is negative, but within the limit modulo 2 ^ 32.
abbrev negative_length : List ℕ
negative_length = codes "set k 0 0 -4294967291" ++ crlf

abbrev error_of : ReadStep → Option RequestError
error_of waits = none
error_of (done r) = r.error

negative_panics :
    error_of (read_request conf malloc 0 req negative_length limiter rl) ≡ some panicked
unfolding bytes_eq read_request read_value read_string fields split_words atoi get_token take_token
    is_valid_value_size
negative_panics = refl

-- What is out of range is its limit, what is no number is 0.
atoi_value_limits :
    (atoi_value (codes "99999999999999999999x") ≡ pos (2 ^ 63 - 1))
    × (atoi_value (codes "-9223372036854775808") ≡ negsuc (2 ^ 63 - 1))
    × (atoi_value (codes "-9223372036854775809") ≡ negsuc (2 ^ 63 - 1))
    × (atoi_value (codes "12x") ≡ pos 0)
unfolding atoi_value digits_limit
atoi_value_limits = (refl, refl, refl, refl)

-- A "cas" request is written with the unique number before the length, where it is read behind it.
abbrev cas_request : Request
cas_request = record {
  cmd = cas;
  keys = codes "k" ∷ [];
  item = some (record new_item {
    cas_id = pos 7;
    array = record { body = 1 ∷ 2 ∷ 3 ∷ []; addr = 0; cap = 3 };
  });
  no_reply = true;
}

cas_written :
    write_request cas_request
    ≡ bytes (codes "cas k 0 0 7 3 noreply" ++ (crlf ++ (1 ∷ 2 ∷ 3 ∷ 13 ∷ 10 ∷ [])))
unfolding write_request itoa digits_of
cas_written = refl

abbrev client : StorageClient MapData
client = map_store conf malloc (pos 5)

abbrev item : Item
item = record new_item { array = record { body = 52 ∷ 50 ∷ []; addr = 0; cap = 2 } }

abbrev world : World MapData
world = record { store = (codes "k", item) ∷ []; rl = rl }

abbrev get_k : Request
get_k = record { cmd = get; keys = codes "k" ∷ codes "x" ∷ []; item = none; no_reply = false }

abbrev k_and_x : List ℕ
k_and_x = codes "VALUE k 0 2" ++ (crlf ++ (52 ∷ 50 ∷ 13 ∷ 10 ∷ (codes "END" ++ crlf)))

asked_lem :
    answer conf client (codes "v") get (codes "k") (codes "x" ∷ []) none false world
    ≡ some (k_and_x, world)
unfolding answer items_text some_key_bad is_valid_key_size map_store find_items find_item put_item
    bytes_eq write_values itoa digits_of
asked_lem = refl

process_answered_example :
    Replies false (k_and_x, world) (process conf client system (codes "v") get_k counters world)
process_answered_example =
    process_answered conf client system (codes "v") get (codes "k") (codes "x" ∷ []) none false
      counters world (k_and_x, world) asked_lem

-- A command to append goes to Append.
append_answered :
    (w : World MapData) × (answer conf client
        (codes "v")
        append
        (codes "k")
        []
        (some item)
        false
        world
      ≡ some (codes "STORED" ++ crlf, w))
unfolding answer map_store find_item bytes_eq
append_answered = (_, refl)

abbrev conn : Conn MapData
conn = record {
  req = req;
  input = codes "get k" ++ crlf;
  output = [];
  close_after_reply = false;
  failed = false;
  limiter = limiter;
  counters = counters;
  world = world;
}

serve_once-IsReleased_example :
    IsReleased 2 2 0 (serve_once conf malloc client system (codes "v") 0 false false conn)
serve_once-IsReleased_example =
    serve_once-IsReleased 2 2 0 (omega arith) conf malloc client system (codes "v") false false conn
      limiter-Calls refl

serve-IsReleased_example :
    IsReleased 2 2 0 (serve conf malloc client system (codes "v") 0 ((false, false) ∷ []) conn)
serve-IsReleased_example =
    serve-IsReleased 2 2 0 (omega arith) conf malloc client system (codes "v") ((false, false) ∷ [])
      conn limiter-Calls refl

-- What a connection has to see.
abbrev output_of : ServeStep MapData → List ℕ
output_of waiting = []
output_of (served c) = c.output

get_answered :
    output_of (serve_once conf malloc client system (codes "v") 0 false false conn)
    ≡ codes "VALUE k 0 2" ++ (crlf ++ (52 ∷ 50 ∷ 13 ∷ 10 ∷ (codes "END" ++ crlf)))
unfolding serve_once read_request bytes_eq read_string fields split_words get_token take_token
    process all_keys_valid is_valid_key_size map_store find_item write_response write_values itoa
    digits_of finish release
get_answered = refl

-- An answer that is late is not given, nor is the one in its place.
late_silent : output_of (serve_once conf malloc client system (codes "v") 0 false true conn) ≡ []
unfolding serve_once read_request bytes_eq read_string fields split_words get_token take_token
    process all_keys_valid is_valid_key_size map_store find_item finish release
late_silent = refl

abbrev level_of : ServeStep MapData → ℤ
level_of waiting = pos 0
level_of (served c) = c.world.rl.set_data.size

-- A value that was received too late stays counted in SetData.
late_value_counted :
    level_of (
      serve_once conf malloc client system
        (codes "v")
        0
        true
        false
        (record conn { input = codes "set k 0 0 2" ++ (crlf ++ (1 ∷ 2 ∷ crlf)) }))
    ≡ pos 2
unfolding serve_once read_request bytes_eq read_string fields split_words get_token take_token
    process read_value read_data read_end atoi alloc free is_valid_value_size add_size_and_count
    sub_size_and_count add64 sub64 finish release put_token give_back clean_items write_response
late_value_counted = refl

abbrev closed_of : ServeStep MapData → Bool
closed_of waiting = false
closed_of (served c) = c.close_after_reply

-- "decr" is read, and closes the connection.
decr_closes :
    closed_of (
      serve conf malloc client system
        (codes "v")
        0
        ((false, false) ∷ [])
        (record conn { input = codes "decr k 1" ++ crlf }))
    ≡ true
unfolding serve serve_once read_request bytes_eq read_string fields split_words get_token take_token
    process finish release put_token give_back
decr_closes = refl

stats_lines :
    stat_keys ((codes "a", pos 1) ∷ []) (codes "a" ∷ codes "b" ∷ [])
    ≡ codes "STAT a 1" ++ (crlf ++ (codes "STAT b 0" ++ crlf))
unfolding stat_keys value_of bytes_eq itoa digits_of
stats_lines = refl

version_line : stat_all [] (codes "1") ≡ codes "STAT version 1" ++ crlf
unfolding stat_all
version_line = refl

sizes_added : total_body ((codes "k", item) ∷ (codes "l", item) ∷ []) ≡ 4
unfolding total_body
sizes_added = refl

unasked :
    check get_k (record new_response { status = value; items = (codes "z", item) ∷ [] }) ≡ false
unfolding check all_asked contain bytes_eq
unasked = refl

removed : (client.do_delete (codes "k") world).1.store ≡ []
unfolding map_store find_item remove_item bytes_eq
removed = refl

replaced : find_item (set_copy conf malloc (pos 5) (codes "k") item world).store (codes "k") ≢ none
unfolding set_copy find_item put_item bytes_eq copy
replaced e = cc

nothing_cleaned : (clean_buffer new_response rl).1 ≡ rl
unfolding clean_items
nothing_cleaned = refl

read_response_ends_example :
    (r : Reply) × (read_response conf malloc new_response (codes "STORED" ++ crlf) rl ≡ some r)
read_response_ends_example = read_response_ends conf malloc new_response (codes "STORED" ++ crlf) rl

abbrev status_of : Option Reply → Option Status
status_of none = none
status_of (some r) = some r.resp.status

stored_read :
    status_of (read_response conf malloc new_response (codes "STORED" ++ crlf) rl) ≡ some stored
unfolding read_response read_string bytes_eq fields split_words
stored_read = refl

reply_replaced : put_reply ((codes "a", item) ∷ []) (codes "a") item ≡ (codes "a", item) ∷ []
unfolding put_reply bytes_eq
reply_replaced = refl
