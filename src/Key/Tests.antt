-- ===== src/Key/Tests.antt =====
-- Runs of the code of Key. The decoder of runes is that of ASCII.
use gobeansdb.Base.{ℕ, ◌≡◌, refl, arith, Bool, true, false, ◌==◌, some, List, [], ◌∷◌, ltb}
use gobeansdb.Base.Int.{pos}
use gobeansdb.Config.{HStoreConfig}
use gobeansdb.Key.{
  KeyInfo, is_valid_key_string, any_bad, hex_digit, parse_digits, parse_path_string, path,
  bad_digit, prepare,
}
use gobeansdb.Key.Path16.{IsRouted, prepare-IsRouted}

abbrev runes : List ℕ → List ℕ
runes bs = bs

abbrev is_control : ℕ → Bool
is_control r = ltb r 32

abbrev is_space : ℕ → Bool
is_space r = r == 32

key_with_space : is_valid_key_string runes is_control is_space (b'a' ∷ b' ' ∷ []) ≡ false
unfolding is_valid_key_string any_bad
key_with_space = refl

plain_key : is_valid_key_string runes is_control is_space (b'a' ∷ b'b' ∷ []) ≡ true
unfolding is_valid_key_string any_bad
plain_key = refl

two_digits : parse_path_string (b'1' ∷ b'f' ∷ []) ≡ path (1 ∷ 15 ∷ [])
unfolding parse_path_string parse_digits hex_digit
two_digits = refl

no_digit : parse_path_string (b'1' ∷ b'x' ∷ []) ≡ bad_digit
unfolding parse_path_string parse_digits hex_digit
no_digit = refl

abbrev conf : HStoreConfig
conf = record {
  num_bucket = 16;
  data_file_max = 4000;
  check_vhash = false;
  no_gc_days = 0;
  merge_interval = 1;
  split_cap = 100;
  tree_height = 4;
  tree_depth = 1;
  tree_key_hash_len = 6;
  tree_key_hash_mask = 0xffffffffffff;
}

abbrev by_hash : KeyInfo
by_hash = record {
  key_hash = 0xa123456789abcdef;
  key_is_path = false;
  key = [];
  key_path = [];
  bucket_id = pos 0;
}

prepare-IsRouted_example :
    (ki' : KeyInfo) × (prepare conf by_hash ≡ some (ki', false))
    × IsRouted conf 0xa123456789abcdef ki'
prepare-IsRouted_example = prepare-IsRouted conf by_hash refl (omega arith) (omega arith)
