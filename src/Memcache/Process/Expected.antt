-- ===== src/Memcache/Process/Expected.antt =====
-- The text that answers a command, and the call of the store behind it, as the protocol of memcache has
-- them: what `Process` and `Response.Write` of memcache/protocol.go come to.
use gobeansdb.Base.{
  ℕ, ◌%◌, ◌^◌, Bool, true, false, not, ◌||◌, Option, none, some, List, [], ◌∷◌, ◌++◌, length,
  if◌then◌else◌,
}
use gobeansdb.Base.Int.{ℤ, pos}
use gobeansdb.Config.{McConfig, is_valid_key_size}
use gobeansdb.Memcache.{Command, Item}
use gobeansdb.Memcache.{
  get, gets, set, add, replace, cas, append, delete, incr, version, flush_all, verbosity,
}
use gobeansdb.Memcache.Text.{codes, itoa, atoi}
use gobeansdb.Memcache.Send.{crlf, spaced, with_msg}
use gobeansdb.Memcache.Process.{Fallible, success, failure, World, StorageClient}

abbrev pub line : List ℕ → List ℕ
line text = text ++ crlf

abbrev pub failed_line : List ℕ → List ℕ
failed_line text = codes "SERVER_ERROR" ++ (with_msg text ++ crlf)

-- The lines of an item: its key, flags, length and, for "gets", unique number, and its value.
abbrev pub header_words : Bool → List ℕ × Item → List (List ℕ)
header_words with_cas (key, item) =
    key
    ∷ itoa item.flag
    ∷ itoa (pos (length item.array.body))
    ∷ (if with_cas then itoa item.cas_id ∷ [] else [])

abbrev pub item_text : Bool → List ℕ × Item → List ℕ
item_text with_cas entry =
    codes "VALUE"
    ++ (spaced (header_words with_cas entry) ++ (crlf ++ (entry.1.array.body ++ crlf)))

unfoldable pub items_text : Bool → List (List ℕ × Item) → List ℕ
items_text with_cas [] = []
items_text with_cas (entry ∷ entries) = item_text with_cas entry ++ items_text with_cas entries

abbrev pub shown : Bool → List (List ℕ × Item) → List ℕ
shown with_cas items = items_text with_cas items ++ line (codes "END")

-- Whether some key has a size that is not valid.
unfoldable pub some_key_bad : McConfig → List (List ℕ) → Bool
some_key_bad conf [] = false
some_key_bad conf (k ∷ ks) =
    not (is_valid_key_size conf (length k % 2 ^ 32)) || some_key_bad conf ks

-- The answers for what the store gave.
module _ {S : Type 0} where
  abbrev pub told : List ℕ → List ℕ → Fallible Bool × World S → List ℕ × World S
  told yes_text no_text (failure text, world) = (failed_line text, world)
  told yes_text no_text (success true, world) = (line yes_text, world)
  told yes_text no_text (success false, world) = (line no_text, world)

  abbrev pub told_number : Fallible ℤ × World S → List ℕ × World S
  told_number (failure text, world) = (failed_line text, world)
  told_number (success n, world) = (line (itoa n), world)

  abbrev pub told_one : Bool → List ℕ → Fallible (Option Item) × World S → List ℕ × World S
  told_one with_cas key (failure text, world) = (failed_line text, world)
  told_one with_cas key (success none, world) = (line (codes "END"), world)
  told_one with_cas key (success (some item), world) = (shown with_cas ((key, item) ∷ []), world)

  abbrev pub told_all : Bool → Fallible (List (List ℕ × Item)) × World S → List ℕ × World S
  told_all with_cas (failure text, world) = (failed_line text, world)
  told_all with_cas (success items, world) = (shown with_cas items, world)

  module _ (conf : McConfig) (client : StorageClient S) (version_text : List ℕ) where
    abbrev pub asked : Bool → List ℕ → List (List ℕ) → World S → List ℕ × World S
    asked with_cas key [] world = told_one with_cas key (client.do_get key world)
    asked with_cas key (k ∷ keys) world =
        told_all with_cas (client.do_get_multi (key ∷ k ∷ keys) world)

    abbrev pub checked : Bool → List ℕ → List (List ℕ) → World S → List ℕ × World S
    checked with_cas key keys world =
        if some_key_bad conf (key ∷ keys)
        then (line (codes "CLIENT_ERROR key length error"), world)
        else asked with_cas key keys world

    abbrev pub counted_on : List ℕ → Option ℤ → World S → List ℕ × World S
    counted_on key none world = (line (codes "CLIENT_ERROR invalid number"), world)
    counted_on key (some n) world = told_number (client.do_incr key n world)

    -- The text that answers a command with a first key, and the state behind the one call of the store;
    -- `none` for "stats", for commands without an answer, and where the item is missing.
    unfoldable pub answer :
        Command → List ℕ → List (List ℕ) → Option Item → Bool → World S → Option (List ℕ × World S)
    answer get key keys item no_reply w = some (checked false key keys w)
    answer gets key keys item no_reply w = some (checked true key keys w)
    answer set key keys (some item) no_reply w =
        some (told (codes "STORED") (codes "NOT_STORED") (client.do_set key item no_reply w))
    answer add key keys (some item) no_reply w =
        some (told (codes "STORED") (codes "NOT_STORED") (client.do_set key item no_reply w))
    answer replace key keys (some item) no_reply w =
        some (told (codes "STORED") (codes "NOT_STORED") (client.do_set key item no_reply w))
    answer cas key keys (some item) no_reply w =
        some (told (codes "STORED") (codes "NOT_STORED") (client.do_set key item no_reply w))
    answer append key keys (some item) no_reply w =
        some (told (codes "STORED") (codes "NOT_STORED") (client.do_append key item.array.body w))
    answer incr key keys (some item) no_reply w = some (counted_on key (atoi item.array.body) w)
    answer delete key keys item no_reply w =
        some (told (codes "DELETED") (codes "NOT_FOUND") (client.do_delete key w))
    answer version key keys item no_reply w =
        some (line (codes "VERSION" ++ with_msg version_text), w)
    answer verbosity key keys item no_reply w = some (line (codes "OK"), w)
    answer flush_all key keys item no_reply w = some (line (codes "OK"), w)
    answer cmd key keys item no_reply w = none
