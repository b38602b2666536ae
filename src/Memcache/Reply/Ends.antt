-- ===== src/Memcache/Reply/Ends.antt =====
-- `Response.Read` of memcache/protocol.go: the rounds of its loop.
use gobeansdb.Base.{
  ℕ, zero, suc, ◌<◌, ◌≤◌, ◌≡◌, refl, arith, Bool, true, false, not, Option, none, some, List, [],
  ◌∷◌, length, drop, ltb, ◌==◌, if◌then◌else◌, length-drop,
}
use gobeansdb.Base.Int.{ℤ, pos, negsuc, to_u32}
use gobeansdb.Config.{McConfig, is_valid_value_size}
use gobeansdb.Cmem.{BeansdbRl, empty_array, alloc}
use gobeansdb.Memcache.{Item, new_item, Response, Status, value, stat, other_status}
use gobeansdb.Memcache.Text.{with_front, read_string, split_keys, atoi}
use gobeansdb.Memcache.Reply.{
  Reply, Turn, again, ends, reply_cas, value_body, with_cas_id, value_numbers, read_value_line,
  read_stat_line, read_number, read_status, read_words, read_reply_line, reply_loop, read_response,
  status_among, known,
}

-- The end, or another round on no more than `n` bytes.
data IsShorter (n : ℕ) : Turn → Type 0 where
  at_end : (r : Reply) → IsShorter n (ends r)
  goes_on :
      (resp : Response) (rest : List ℕ) (rl : BeansdbRl)
      → length rest ≤ n
      → IsShorter n (again resp rest rl)

if-IsShorter :
    (n : ℕ) (b : Bool) (x y : Turn)
    → IsShorter n x
    → IsShorter n y
    → IsShorter n (if b then x else y)
if-IsShorter n true x y p q = p
if-IsShorter n false x y p q = q

-- Nothing, or a rest of less than `n` bytes.
data IsCut (n : ℕ) : Option (List ℕ × List ℕ) → Type 0 where
  nothing : IsCut n none
  part : (line rest : List ℕ) → length rest < n → IsCut n (some (line, rest))

if-IsCut :
    (n : ℕ) (b : Bool) (x y : Option (List ℕ × List ℕ))
    → IsCut n x
    → IsCut n y
    → IsCut n (if b then x else y)
if-IsCut n true x y p q = p
if-IsCut n false x y p q = q

with_front-IsCut :
    (n c : ℕ) (o : Option (List ℕ × List ℕ)) → IsCut n o → IsCut (suc n) (with_front c o)
with_front-IsCut n c none nothing = nothing
with_front-IsCut n c (some (line, rest)) (part l r h) = part (c ∷ line) rest (omega (arith, h))

read_string-IsCut : (input : List ℕ) → IsCut (length input) (read_string input)
unfolding read_string
read_string-IsCut [] = nothing
read_string-IsCut (c ∷ cs) =
    if-IsCut (suc (length cs)) (c == 10) (some (c ∷ [], cs)) (with_front c (read_string cs))
      (part (c ∷ []) cs (omega arith))
      (with_front-IsCut (length cs) c (read_string cs) (read_string-IsCut cs))

module _ (conf : McConfig) (malloc : ℕ → ℕ) where
  value_body-IsShorter :
      (resp : Response) (key : List ℕ) (item : Item) (size : ℤ) (input : List ℕ) (rl : BeansdbRl)
      → IsShorter (length input) (value_body conf malloc resp key item size input rl)
  unfolding value_body
  value_body-IsShorter resp key item (negsuc n) input rl = at_end _
  value_body-IsShorter resp key item (pos size) input rl =
      if-IsShorter (length input) (not (alloc conf malloc empty_array size rl).0) _ _ (at_end _) (
        if-IsShorter (length input) (ltb (length input) size) _ _ (at_end _) (
          goes_on _ (drop 2 (drop size input)) _
            (omega (arith, length-drop 2 (drop size input), length-drop size input))))

  with_cas_id-IsShorter :
      (resp : Response) (key : List ℕ) (flag size : ℤ) (cas : Option ℤ) (input : List ℕ)
      (rl : BeansdbRl)
      → IsShorter (length input) (with_cas_id conf malloc resp key flag size cas input rl)
  unfolding with_cas_id
  with_cas_id-IsShorter resp key flag size none input rl = at_end _
  with_cas_id-IsShorter resp key flag size (some n) input rl =
      value_body-IsShorter resp key (record new_item { flag = flag; cas_id = n }) size input rl

  value_numbers-IsShorter :
      (resp : Response) (key : List ℕ) (flag size cas : Option ℤ) (input : List ℕ) (rl : BeansdbRl)
      → IsShorter (length input) (value_numbers conf malloc resp key flag size cas input rl)
  unfolding value_numbers
  value_numbers-IsShorter resp key (some flag) (some size) cas input rl =
      if-IsShorter (length input) (not (is_valid_value_size conf (to_u32 size))) _ _ (at_end _)
        (with_cas_id-IsShorter resp key flag size cas input rl)
  value_numbers-IsShorter resp key none size cas input rl = at_end _
  value_numbers-IsShorter resp key (some flag) none cas input rl = at_end _

  read_value_line-IsShorter :
      (resp : Response) (args : List (List ℕ)) (input : List ℕ) (rl : BeansdbRl)
      → IsShorter (length input) (read_value_line conf malloc resp args input rl)
  unfolding read_value_line
  read_value_line-IsShorter resp (key ∷ flag ∷ size ∷ more) input rl =
      value_numbers-IsShorter resp key (atoi flag) (atoi size) (reply_cas more) input rl
  read_value_line-IsShorter resp [] input rl = at_end _
  read_value_line-IsShorter resp (a ∷ []) input rl = at_end _
  read_value_line-IsShorter resp (a ∷ b ∷ []) input rl = at_end _

  read_stat_line-IsShorter :
      (resp : Response) (args : List (List ℕ)) (input : List ℕ) (rl : BeansdbRl)
      → IsShorter (length input) (read_stat_line conf malloc resp args input rl)
  unfolding read_stat_line
  read_stat_line-IsShorter resp (key ∷ text ∷ []) input rl = goes_on _ input rl (omega arith)
  read_stat_line-IsShorter resp [] input rl = at_end _
  read_stat_line-IsShorter resp (a ∷ []) input rl = at_end _
  read_stat_line-IsShorter resp (a ∷ b ∷ c ∷ more) input rl = at_end _

  read_number-IsShorter :
      (resp : Response) (text : List ℕ) (n : Option ℤ) (input : List ℕ) (rl : BeansdbRl)
      → IsShorter (length input) (read_number conf malloc resp text n input rl)
  unfolding read_number
  read_number-IsShorter resp text none input rl = at_end _
  read_number-IsShorter resp text (some n) input rl = at_end _

  read_status-IsShorter :
      (status : Status) (resp : Response) (args : List (List ℕ)) (input : List ℕ) (rl : BeansdbRl)
      → IsShorter (length input) (read_status conf malloc status resp args input rl)
  unfolding read_status
  read_status-IsShorter value resp args input rl = read_value_line-IsShorter resp args input rl
  read_status-IsShorter stat resp args input rl = read_stat_line-IsShorter resp args input rl
  read_status-IsShorter (other_status text) resp args input rl =
      read_number-IsShorter resp text (atoi text) input rl
  read_status-IsShorter _ resp args input rl = at_end _

  read_words-IsShorter :
      (resp : Response) (words : List (List ℕ)) (input : List ℕ) (rl : BeansdbRl)
      → IsShorter (length input) (read_words conf malloc resp words input rl)
  unfolding read_words
  read_words-IsShorter resp [] input rl = at_end _
  read_words-IsShorter resp (word ∷ args) input rl =
      read_status-IsShorter (status_among known word) _ args input rl

  -- The end, or another round on less than `n` bytes.
  data IsBelow (n : ℕ) : Turn → Type 0 where
    stops : (r : Reply) → IsBelow n (ends r)
    goes_below :
        (resp : Response) (rest : List ℕ) (rl : BeansdbRl)
        → length rest < n
        → IsBelow n (again resp rest rl)

  IsShorter-IsBelow : (m n : ℕ) (t : Turn) → m < n → IsShorter m t → IsBelow n t
  IsShorter-IsBelow m n t h (at_end r) = stops r
  IsShorter-IsBelow m n t h (goes_on resp rest rl k) = goes_below resp rest rl (omega (arith, h, k))

  if-IsBelow :
      (n : ℕ) (b : Bool) (x y : Turn) → IsBelow n x → IsBelow n y → IsBelow n (if b then x else y)
  if-IsBelow n true x y p q = p
  if-IsBelow n false x y p q = q

  read_reply_line-IsBelow :
      (n : ℕ) (resp : Response) (o : Option (List ℕ × List ℕ)) (rl : BeansdbRl)
      → IsCut n o
      → IsBelow n (read_reply_line conf malloc resp o rl)
  unfolding read_reply_line
  read_reply_line-IsBelow n resp none rl nothing = stops _
  read_reply_line-IsBelow n resp (some (line, rest)) rl (part l r h) =
      if-IsBelow n (ltb (length line) 2) _ _ (stops _) (
        IsShorter-IsBelow (length rest) n _ h (read_words-IsShorter resp (split_keys line) rest rl))

  reply_loop_ends :
      (fuel : ℕ) (resp : Response) (input : List ℕ) (rl : BeansdbRl)
      → length input < fuel
      → (r : Reply) × (reply_loop conf malloc fuel resp input rl ≡ some r)
  unfolding reply_loop
  reply_loop_ends zero resp input rl h = elim h [ ]
  reply_loop_ends (suc fuel) resp input rl h =
      go (read_reply_line conf malloc resp (read_string input) rl)
        (read_reply_line-IsBelow (length input) resp (read_string input) rl
          (read_string-IsCut input))
        (λ resp' rest rl' k. reply_loop_ends fuel resp' rest rl' (omega (arith, h, k)))
    where
      go :
          (t : Turn)
          → IsBelow (length input) t
          → ((resp' : Response) (rest : List ℕ) (rl' : BeansdbRl)
              → length rest < length input
              → (r : Reply) × (reply_loop conf malloc fuel resp' rest rl' ≡ some r))
          → (r : Reply) × ((elim t [
            | ends reply ↦ some reply
            | again resp' rest rl' ↦ reply_loop conf malloc fuel resp' rest rl'
          ])
              ≡ some r)
      go (ends reply) below later = (reply, refl)
      go (again resp' rest rl') (goes_below a b c k) later = later resp' rest rl' k

  -- Reading a response ends, whatever the input: with an error or without, in no more rounds than the
  -- input has bytes, and one.
  pub read_response_ends :
      (resp : Response) (input : List ℕ) (rl : BeansdbRl)
      → (r : Reply) × (read_response conf malloc resp input rl ≡ some r)
  unfolding read_response
  read_response_ends resp input rl =
      reply_loop_ends (suc (length input)) (record resp { items = [] }) input rl (omega arith)
