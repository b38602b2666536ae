-- ===== src/Memcache/Text.antt =====
-- The functions on text that memcache/protocol.go takes from Go's library, as far as it uses them.
use gobeansdb.Base.{
  ℕ, zero, suc, ◌+◌, ◌-◌, ◌*◌, ◌/◌, ◌%◌, ◌^◌, Bool, not, ◌&&◌, Option, none, some, List, [], ◌∷◌,
  length, take, drop, ltb, leb, ◌==◌, if◌then◌else◌, bytes_eq,
}
use gobeansdb.Base.Int.{ℤ, pos, negsuc}
use Prim.Native.String.{String}
use Prim.Native.Char.{code}

-- The bytes of a text in ASCII.
abbrev pub codes : String → List ℕ
codes String.[] = []
codes (String.◌∷◌ c s) = code c ∷ codes s

-- `strings.HasSuffix(s, "\r\n")`
abbrev pub ends_crlf : List ℕ → Bool
ends_crlf s = leb 2 (length s) && bytes_eq (drop (length s - 2) s) (13 ∷ 10 ∷ [])

abbrev pub with_front : ℕ → Option (List ℕ × List ℕ) → Option (List ℕ × List ℕ)
with_front c none = none
with_front c (some (line, rest)) = some (c ∷ line, rest)

-- `ReadString('\n')`: the line with its end, and the rest; `none` at the end of the input.
unfoldable pub read_string : List ℕ → Option (List ℕ × List ℕ)
read_string [] = none
read_string (c ∷ cs) =
    let rest = with_front c (read_string cs) in if c == 10 then some (c ∷ [], cs) else rest

abbrev pub push_word : List ℕ → List (List ℕ) → List (List ℕ)
push_word [] ws = ws
push_word (c ∷ cs) ws = (c ∷ cs) ∷ ws

-- The first word, maybe empty, and the words behind it.
unfoldable pub split_words : List ℕ → List ℕ × List (List ℕ)
split_words [] = ([], [])
split_words (c ∷ cs) =
    let (w, ws) = split_words cs in if c == b' ' then ([], push_word w ws) else (c ∷ w, ws)

-- `strings.FieldsFunc(s, isSpace)`
unfoldable pub fields : List ℕ → List (List ℕ)
fields s = push_word (split_words s).0 (split_words s).1

-- `splitKeys`, of a line of at least two bytes.
abbrev pub split_keys : List ℕ → List (List ℕ)
split_keys s = fields (take (length s - 2) s)

-- A run of decimal digits.
unfoldable pub digits_value : ℕ → List ℕ → Option ℕ
digits_value acc [] = some acc
digits_value acc (c ∷ cs) =
    let rest = digits_value (acc * 10 + (c - b'0')) cs in
    if leb b'0' c && leb c b'9' then rest else none

abbrev pub number : List ℕ → Option ℕ
number [] = none
number (c ∷ cs) = digits_value 0 (c ∷ cs)

abbrev pub positive : Option ℕ → Option ℤ
positive none = none
positive (some n) = if ltb n (2 ^ 63) then some (pos n) else none

abbrev pub negative : Option ℕ → Option ℤ
negative none = none
negative (some zero) = some (pos 0)
negative (some (suc n)) = if ltb n (2 ^ 63) then some (negsuc n) else none

-- `strconv.Atoi` with an int of 64 bits; `none` is an error.
unfoldable pub atoi : List ℕ → Option ℤ
unfolding digits_value
atoi [] = none
atoi (c ∷ cs) =
    if c == b'-'
    then negative (number cs)
    else if c == b'+'
    then positive (number cs)
    else positive (number (c ∷ cs))

-- The run of digits of `ParseUint`, which ends as soon as the number is beyond 64 bits.
unfoldable pub digits_limit : ℕ → List ℕ → Option ℕ
digits_limit acc [] = some acc
digits_limit acc (c ∷ cs) =
    let rest = digits_limit (acc * 10 + (c - b'0')) cs in
    if not (leb b'0' c && leb c b'9')
    then none
    else if leb (2 ^ 64) (acc * 10 + (c - b'0'))
    then some (2 ^ 64)
    else rest

abbrev number_limit : List ℕ → Option ℕ
number_limit [] = none
number_limit (c ∷ cs) = digits_limit 0 (c ∷ cs)

abbrev positive_limit : Option ℕ → ℤ
positive_limit none = pos 0
positive_limit (some n) = if ltb n (2 ^ 63) then pos n else pos (2 ^ 63 - 1)

abbrev negative_limit : Option ℕ → ℤ
negative_limit none = pos 0
negative_limit (some zero) = pos 0
negative_limit (some (suc n)) = if ltb n (2 ^ 63) then negsuc n else negsuc (2 ^ 63 - 1)

-- The number that `strconv.Atoi` gives where its error is not looked at: 0 for what is no number, and
-- for a number out of range the limit on its side.
unfoldable pub atoi_value : List ℕ → ℤ
atoi_value [] = pos 0
atoi_value (c ∷ cs) =
    if c == b'-'
    then negative_limit (number_limit cs)
    else if c == b'+'
    then positive_limit (number_limit cs)
    else positive_limit (number_limit (c ∷ cs))

-- The digits of a number, with fuel; a number below `2 ^ 64` has fewer than 21.
unfoldable pub digits_of : ℕ → ℕ → List ℕ → List ℕ
digits_of zero n acc = acc
digits_of (suc fuel) n acc =
    let rest = digits_of fuel (n / 10) ((b'0' + n % 10) ∷ acc) in
    if ltb n 10 then (b'0' + n) ∷ acc else rest

unfoldable pub itoa : ℤ → List ℕ
unfolding digits_of
itoa (pos n) = digits_of 21 n []
itoa (negsuc n) = b'-' ∷ digits_of 21 (suc n) []
