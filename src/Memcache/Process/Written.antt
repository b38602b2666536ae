-- ===== src/Memcache/Process/Written.antt =====
-- The ends of the cases of `Process`, and `Response.Write`, of memcache/protocol.go: the responses for what
-- the store gave, and their text.
use gobeansdb.Base.{
  ℕ, ◌%◌, ◌^◌, ◌≡◌, ◌++◌, refl, sym, ap, ◌∙◌, Bool, true, false, not, inl, inr, Bool-cases, Option,
  none, some, List, [], ◌∷◌, length, if◌then◌else◌,
}
use gobeansdb.Base.Int.{ℤ}
use gobeansdb.Config.{McConfig, is_valid_key_size}
use gobeansdb.Memcache.{Item, Response, new_response, value, stored, not_stored, deleted, not_found}
use gobeansdb.Memcache.Text.{codes}
use gobeansdb.Memcache.Send.{crlf, spaced, write_values, write_response}
use gobeansdb.Memcache.Process.{
  Fallible, success, failure, World, Stats, Processed, got_multi, got_one, said, incremented,
  all_keys_valid,
}
use mathlib.Core.List.{append_assoc}
use gobeansdb.Memcache.Process.Expected.{
  line, header_words, item_text, items_text, shown, some_key_bad, told, told_number, told_one,
  told_all,
}

pub all_keys_valid_lem :
    (conf : McConfig) (ks : List (List ℕ)) → all_keys_valid conf ks ≡ not (some_key_bad conf ks)
unfolding all_keys_valid some_key_bad
all_keys_valid_lem conf [] = refl
all_keys_valid_lem conf (k ∷ ks) = elim (Bool-cases (is_valid_key_size conf (length k % 2 ^ 32))) [
  | inl good ↦ rw good (all_keys_valid_lem conf ks)
  | inr bad ↦ rw bad refl
]

-- The lines of an item with a text behind them.
abbrev item_text_before : Bool → List ℕ × Item → List ℕ → List ℕ
item_text_before with_cas entry rest =
    codes "VALUE"
    ++ (spaced (header_words with_cas entry) ++ (crlf ++ (entry.1.array.body ++ (crlf ++ rest))))

item_text_front :
    (with_cas : Bool) (entry : List ℕ × Item) (rest : List ℕ)
    → item_text with_cas entry ++ rest ≡ item_text_before with_cas entry rest
item_text_front with_cas entry rest =
    ap (λ t. codes "VALUE" ++ t)
      (append_assoc (spaced (header_words with_cas entry)) (crlf ++ (entry.1.array.body ++ crlf))
          rest
        ∙ ap (λ t. spaced (header_words with_cas entry) ++ (crlf ++ t))
            (append_assoc entry.1.array.body crlf rest))

-- The items that `Response.Write` writes.
write_values_lem :
    (with_cas : Bool) (items : List (List ℕ × Item))
    → write_values with_cas items ≡ shown with_cas items
unfolding write_values items_text
write_values_lem with_cas [] = refl
write_values_lem with_cas (entry ∷ entries) =
    ap (item_text_before with_cas entry) (write_values_lem with_cas entries)
    ∙ sym (item_text_front with_cas entry (shown with_cas entries))
    ∙ sym
        (append_assoc (item_text with_cas entry) (items_text with_cas entries) (line (codes "END")))

module _ {S : Type 0} where
  -- The response is written as the text of `x`, or as nothing where no reply is wanted, and the state is
  -- that of `x`.
  pub record Replies (quiet : Bool) (x : List ℕ × World S) (r : Option (Processed S)) : Type 0 where
    pub p : Processed S
    pub resp : Response
    pub returned : r ≡ some p
    pub given : p.resp ≡ some resp
    pub text : write_response resp ≡ (if quiet then [] else x.0)
    pub after : p.world ≡ x.1

written :
    (quiet with_cas : Bool) (items : List (List ℕ × Item))
    → (if quiet then [] else write_values with_cas items)
      ≡ (if quiet then [] else shown with_cas items)
written quiet with_cas items = ap (λ t. if quiet then [] else t) (write_values_lem with_cas items)

-- The response that `Process` starts from, and that of "get".
abbrev pub base : Bool → Response
base quiet = record new_response { noreply = quiet }

abbrev pub value_base : Bool → Bool → Response
value_base quiet with_cas = record (base quiet) { status = value; with_cas = with_cas }

module _ {S : Type 0} (quiet : Bool) where
  pub wrote :
      {p : Processed S} {resp : Response} {x : List ℕ × World S}
      → p.resp ≡ some resp
      → write_response resp ≡ (if quiet then [] else x.0)
      → p.world ≡ x.1
      → Replies quiet x (some p)
  wrote {p} {resp} given text after = record {
    p = p;
    resp = resp;
    returned = refl;
    given = given;
    text = text;
    after = after;
  }

  pub told-Replies :
      (s : Stats) (r : Fallible Bool × World S)
      → Replies quiet
          (told (codes "STORED") (codes "NOT_STORED") r)
          (some (said (base quiet) stored not_stored s r))
        × Replies quiet
            (told (codes "DELETED") (codes "NOT_FOUND") r)
            (some (said (base quiet) deleted not_found s r))
  unfolding said write_response
  told-Replies s (failure text, world) = (wrote refl refl refl, wrote refl refl refl)
  told-Replies s (success true, world) = (wrote refl refl refl, wrote refl refl refl)
  told-Replies s (success false, world) = (wrote refl refl refl, wrote refl refl refl)

  pub number-Replies :
      (s : Stats) (r : Fallible ℤ × World S)
      → Replies quiet (told_number r) (some (incremented (base quiet) s r))
  unfolding incremented write_response
  number-Replies s (failure text, world) = wrote refl refl refl
  number-Replies s (success n, world) = wrote refl refl refl

  module _ (with_cas : Bool) where
    pub one-Replies :
        (key : List ℕ) (s : Stats) (r : Fallible (Option Item) × World S)
        → Replies quiet
            (told_one with_cas key r)
            (some (got_one (value_base quiet with_cas) key s r))
    unfolding got_one write_response items_text
    one-Replies key s (failure text, world) = wrote refl refl refl
    one-Replies key s (success none, world) = wrote refl (written quiet with_cas []) refl
    one-Replies key s (success (some item), world) =
        wrote refl (written quiet with_cas ((key, item) ∷ [])) refl

    pub all-Replies :
        (n : ℕ) (s : Stats) (r : Fallible (List (List ℕ × Item)) × World S)
        → Replies quiet (told_all with_cas r) (some (got_multi (value_base quiet with_cas) n s r))
    unfolding got_multi write_response
    all-Replies n s (failure text, world) = wrote refl refl refl
    all-Replies n s (success items, world) = wrote refl (written quiet with_cas items) refl
