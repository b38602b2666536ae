-- ===== src/Memcache/Process/Answers.antt =====
-- `Process` and `Response.Write` of memcache/protocol.go, one after the other: the text that answers a
-- command, and the call of the store behind it.
use gobeansdb.Base.{
  ℕ, ◌≡◌, refl, Bool, true, false, inl, inr, Bool-cases, Option, none, some, List, [], ◌∷◌, length,
}
use gobeansdb.Base.Int.{ℤ}
use gobeansdb.Config.{McConfig}
use gobeansdb.Memcache.{Command, Request, Item}
use gobeansdb.Memcache.{
  get, gets, set, add, replace, cas, append, prepend, delete, incr, decr, stats, quit, version,
  flush_all, verbosity, other,
}
use gobeansdb.Memcache.Text.{codes, atoi}
use gobeansdb.Memcache.Send.{write_response}
use gobeansdb.Memcache.Process.{
  World, StorageClient, Stats, System, Processed, process_incr, process_item, process_get,
  process_keys, process_delete, process_as, process, count_set,
}
use gobeansdb.Memcache.Process.Expected.{some_key_bad, told, asked, checked, counted_on, answer}
use mathlib.Core.Path.{subst}
use mathlib.Core.Option.{some_inj}
use gobeansdb.Memcache.Process.Written.{
  all_keys_valid_lem, Replies, wrote, base, value_base, told-Replies, number-Replies, one-Replies,
  all-Replies,
}

module _ {S : Type 0} (conf : McConfig) (client : StorageClient S) (system : System)
    (version_text : List ℕ) (quiet : Bool) where
  asked-Replies :
      (with_cas : Bool) (key : List ℕ) (keys : List (List ℕ)) (s : Stats) (w : World S)
      → Replies quiet
          (asked conf client version_text with_cas key keys w)
          (process_get conf client system version_text (value_base quiet with_cas) (key ∷ keys) s w)
  unfolding process_get
  asked-Replies with_cas key [] s w = one-Replies quiet with_cas key s (client.do_get key w)
  asked-Replies with_cas key (k ∷ keys) s w =
      all-Replies quiet with_cas (length (key ∷ k ∷ keys)) s
        (client.do_get_multi (key ∷ k ∷ keys) w)

  keys-Replies :
      (with_cas : Bool) (key : List ℕ) (keys : List (List ℕ)) (s : Stats) (w : World S)
      → Replies quiet
          (checked conf client version_text with_cas key keys w)
          (process_keys conf client system version_text with_cas (base quiet) (key ∷ keys) s w)
  unfolding process_keys
  keys-Replies with_cas key keys s w =
      rw (all_keys_valid_lem conf (key ∷ keys))
        (elim (Bool-cases (some_key_bad conf (key ∷ keys))) [
          | inl bad ↦ rw bad (wrote quiet refl (unfold write_response in refl) refl)
          | inr fine ↦ rw fine (asked-Replies with_cas key keys s w)
        ])

  counted_on-Replies :
      (key : List ℕ) (n : Option ℤ) (s : Stats) (w : World S)
      → Replies quiet
          (counted_on conf client version_text key n w)
          (some (process_incr conf client system version_text (base quiet) key n s w))
  unfolding process_incr
  counted_on-Replies key none s w = wrote quiet refl (unfold write_response in refl) refl
  counted_on-Replies key (some n) s w = number-Replies quiet s (client.do_incr key n w)

  -- The commands with an item, where it is there.
  module _ (key : List ℕ) (keys : List (List ℕ)) (item : Item) (no_reply : Bool) (s : Stats)
      (w : World S) where
    abbrev by_item : Command → Option (Processed S)
    by_item cmd =
        process_item conf client system version_text cmd (base quiet) (key ∷ keys) (some item)
          no_reply s w

    set-Replies :
        Replies quiet
          (told (codes "STORED") (codes "NOT_STORED") (client.do_set key item no_reply w))
          (by_item set)
    unfolding process_item
    set-Replies = (told-Replies quiet (count_set s item) (client.do_set key item no_reply w)).0

    append-Replies :
        Replies quiet
          (told (codes "STORED") (codes "NOT_STORED") (client.do_append key item.array.body w))
          (by_item append)
    unfolding process_item
    append-Replies =
        (told-Replies quiet (count_set s item) (client.do_append key item.array.body w)).0

    incr-Replies :
        Replies quiet
          (counted_on conf client version_text key (atoi item.array.body) w)
          (by_item incr)
    unfolding process_item
    incr-Replies = counted_on-Replies key (atoi item.array.body) (count_set s item) w

  delete-Replies :
      (key : List ℕ) (keys : List (List ℕ)) (s : Stats) (w : World S)
      → Replies quiet
          (told (codes "DELETED") (codes "NOT_FOUND") (client.do_delete key w))
          (process_delete conf client system version_text (base quiet) (key ∷ keys) s w)
  unfolding process_delete
  delete-Replies key keys s w = (told-Replies quiet _ (client.do_delete key w)).1

module _ {S : Type 0} (conf : McConfig) (client : StorageClient S) (system : System)
    (version_text : List ℕ) where
  abbrev asking : Command → List ℕ → List (List ℕ) → Option Item → Bool → Request
  asking cmd key keys item no_reply = record {
    cmd = cmd;
    keys = key ∷ keys;
    item = item;
    no_reply = no_reply;
  }

  -- The predicate on an equation between results.
  by_result :
      (quiet : Bool) (r : Option (Processed S)) (y x : List ℕ × World S)
      → some y ≡ some x
      → Replies quiet y r
      → Replies quiet x r
  by_result quiet r y x e p = subst (λ z. Replies quiet z r) (some_inj.0 e) p

  -- For every command with a first key, except "stats" and the commands without an answer, and with its
  -- item where the command has one: `Process` returns a response, which `Response.Write` writes as nothing
  -- if no reply is wanted, and else as follows. "get" and "gets" are refused, with no call of the store, if
  -- some key has an invalid size; else they call Get or, for several keys, GetMulti, and write the items
  -- and END. "set", "add", "replace" and "cas" call Set and "append" calls Append, and write STORED or
  -- NOT_STORED by the result; "delete" calls Delete and writes DELETED or NOT_FOUND. "incr" calls Incr with
  -- the number of its item and writes the result, or is refused, with no call, if that is no number. An
  -- error of the store is written behind SERVER_ERROR. "version" writes the version, "verbosity" and
  -- "flush_all" write OK. The state is the one that the call leaves.
  pub process_answered :
      (cmd : Command) (key : List ℕ) (keys : List (List ℕ)) (item : Option Item) (no_reply : Bool)
      (s : Stats) (w : World S) (x : List ℕ × World S)
      → answer conf client version_text cmd key keys item no_reply w ≡ some x
      → Replies no_reply x
          (process conf client system version_text (asking cmd key keys item no_reply) s w)
  unfolding process process_as answer
  process_answered get key keys item q s w x e =
      by_result q _ _ x e (keys-Replies conf client system version_text q false key keys s w)
  process_answered gets key keys item q s w x e =
      by_result q _ _ x e (keys-Replies conf client system version_text q true key keys s w)
  process_answered set key keys (some item) q s w x e =
      by_result q _ _ x e (set-Replies conf client system version_text q key keys item q s w)
  process_answered add key keys (some item) q s w x e =
      by_result q _ _ x e (set-Replies conf client system version_text q key keys item q s w)
  process_answered replace key keys (some item) q s w x e =
      by_result q _ _ x e (set-Replies conf client system version_text q key keys item q s w)
  process_answered cas key keys (some item) q s w x e =
      by_result q _ _ x e (set-Replies conf client system version_text q key keys item q s w)
  process_answered append key keys (some item) q s w x e =
      by_result q _ _ x e (append-Replies conf client system version_text q key keys item q s w)
  process_answered incr key keys (some item) q s w x e =
      by_result q _ _ x e (incr-Replies conf client system version_text q key keys item q s w)
  process_answered delete key keys item q s w x e =
      by_result q _ _ x e (delete-Replies conf client system version_text q key keys s w)
  process_answered version key keys item q s w x e =
      by_result q _ _ x e (wrote q refl (unfold write_response in refl) refl)
  process_answered verbosity key keys item q s w x e =
      by_result q _ _ x e (wrote q refl (unfold write_response in refl) refl)
  process_answered flush_all key keys item q s w x e =
      by_result q _ _ x e (wrote q refl (unfold write_response in refl) refl)
  process_answered set key keys none q s w x e = absurd (cc)
  process_answered add key keys none q s w x e = absurd (cc)
  process_answered replace key keys none q s w x e = absurd (cc)
  process_answered cas key keys none q s w x e = absurd (cc)
  process_answered append key keys none q s w x e = absurd (cc)
  process_answered incr key keys none q s w x e = absurd (cc)
  process_answered decr key keys item q s w x e = absurd (cc)
  process_answered prepend key keys item q s w x e = absurd (cc)
  process_answered stats key keys item q s w x e = absurd (cc)
  process_answered quit key keys item q s w x e = absurd (cc)
  process_answered (other text) key keys item q s w x e = absurd (cc)
