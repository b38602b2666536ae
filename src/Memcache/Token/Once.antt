-- ===== src/Memcache/Token/Once.antt =====
-- memcache/token.go: where each token is, over the calls of `Get` and `Put` by requests.
use gobeansdb.Base.{
  ℕ, zero, suc, ◌+◌, ◌<◌, ◌≤◌, ◌≡◌, ◌≢◌, refl, sym, ap, ◌∙◌, arith, Bool, true, false, ◌&&◌, inl,
  inr, Bool-cases, none, some, List, [], ◌∷◌, ◌++◌, length, get_or, set, replicate, ltb, ◌==◌,
  if◌then◌else◌, length-set, length-replicate, get_or-set_self, get_or-set, ==_iff,
}
use mathlib.Core.Bool.{false≢true}
use mathlib.Core.Option.{some_inj}
use mathlib.Core.Path.{subst}
use gobeansdb.Memcache.Token.{
  ReqLimiter, tokens_below, new_req_limiter, take_token, get_token, give_back, put_token,
}

-- How often a token is in a list.
abbrev pub count_in : ℕ → List ℕ → ℕ
count_in t [] = 0
count_in t (x ∷ xs) = (if x == t then 1 else 0) + count_in t xs

-- How many working requests hold a token.
abbrev pub count_held : ℕ → List ℕ → List Bool → ℕ
count_held t [] ws = 0
count_held t (x ∷ xs) [] = 0
count_held t (x ∷ xs) (w ∷ ws) = (if w && (x == t) then 1 else 0) + count_held t xs ws

-- The places of a token.
abbrev pub places : ℕ → ReqLimiter → ℕ
places t rl = count_in t rl.chan + count_held t rl.token rl.working

-- The calls that requests make: `Get` when not at work, `Put` when at work.
pub data Calls (n conns : ℕ) : ReqLimiter → Type 0 where
  starts : Calls n conns (new_req_limiter n conns)
  gets_token :
      (rl rl' : ReqLimiter) (conn : ℕ)
      → Calls n conns rl
      → conn < conns
      → get_or rl.working conn false ≡ false
      → get_token rl conn ≡ some rl'
      → Calls n conns rl'
  puts_token :
      (rl rl' : ReqLimiter) (conn : ℕ)
      → Calls n conns rl
      → conn < conns
      → get_or rl.working conn false ≡ true
      → put_token rl conn ≡ some rl'
      → Calls n conns rl'

count_in-append : (t : ℕ) (xs ys : List ℕ) → count_in t (xs ++ ys) ≡ count_in t xs + count_in t ys
count_in-append t [] ys = omega arith
count_in-append t (x ∷ xs) ys = omega (arith, count_in-append t xs ys)

count_held_idle : (t n : ℕ) → count_held t (replicate n 0) (replicate n false) ≡ 0
count_held_idle t zero = refl
count_held_idle t (suc n) = omega (arith, count_held_idle t n)

count_in-tokens_below : (t n : ℕ) → count_in t (tokens_below n) ≡ (if ltb t n then 1 else 0)
count_in-tokens_below t zero = ground arith
count_in-tokens_below t (suc n) =
    let before = count_in-tokens_below t n in
    let both = count_in-append t (tokens_below n) (n ∷ []) in ground (arith, before, both)

-- Taking a token up for a request that was idle, and setting one down.
count_held-take :
    (t x conn : ℕ) (xs : List ℕ) (ws : List Bool)
    → conn < length xs
    → conn < length ws
    → get_or ws conn false ≡ false
    → count_held t (set xs conn x) (set ws conn true)
      ≡ (if x == t then 1 else 0) + count_held t xs ws
count_held-take t x conn [] ws h k idle = elim h [ ]
count_held-take t x conn (y ∷ xs) [] h k idle = elim k [ ]
count_held-take t x zero (y ∷ xs) (w ∷ ws) h k idle = rw idle (omega arith)
count_held-take t x (suc conn) (y ∷ xs) (w ∷ ws) h k idle =
    omega (arith, count_held-take t x conn xs ws (omega (arith, h)) (omega (arith, k)) idle)

count_held-put :
    (t conn : ℕ) (xs : List ℕ) (ws : List Bool)
    → conn < length xs
    → conn < length ws
    → get_or ws conn false ≡ true
    → count_held t xs ws
      ≡ (if get_or xs conn 0 == t then 1 else 0) + count_held t xs (set ws conn false)
count_held-put t conn [] ws h k busy = elim h [ ]
count_held-put t conn (y ∷ xs) [] h k busy = elim k [ ]
count_held-put t zero (y ∷ xs) (w ∷ ws) h k busy = rw busy (omega arith)
count_held-put t (suc conn) (y ∷ xs) (w ∷ ws) h k busy =
    omega (arith, count_held-put t conn xs ws (omega (arith, h)) (omega (arith, k)) busy)

count_held_some :
    (conn : ℕ) (xs : List ℕ) (ws : List Bool)
    → conn < length xs
    → get_or ws conn false ≡ true
    → 1 ≤ count_held (get_or xs conn 0) xs ws
count_held_some conn [] ws h busy = elim h [ ]
count_held_some conn (y ∷ xs) [] h busy = absurd (false≢true busy)
count_held_some zero (y ∷ xs) (w ∷ ws) h busy = rw (busy, (==_iff y y).1 refl) (omega arith)
count_held_some (suc conn) (y ∷ xs) (w ∷ ws) h busy =
    omega (arith, count_held_some conn xs ws (omega (arith, h)) busy)

-- What holds between calls.
record Inv (n conns : ℕ) (rl : ReqLimiter) : Type 0 where
  pub once : (t : ℕ) → places t rl ≡ (if ltb t n then 1 else 0)
  pub token_length : length rl.token ≡ conns
  pub working_length : length rl.working ≡ conns
  pub owners_length : length rl.owners ≡ n
  pub owned :
      (conn : ℕ)
      → conn < conns
      → get_or rl.working conn false ≡ true
      → get_or rl.owners (get_or rl.token conn 0) none ≡ some conn

working_idle : (conn n : ℕ) → get_or (replicate n false) conn false ≡ false
working_idle conn zero = refl
working_idle zero (suc n) = refl
working_idle (suc conn) (suc n) = working_idle conn n

start-Inv : (n conns : ℕ) → Inv n conns (new_req_limiter n conns)
start-Inv n conns = record {
  once = λ t. omega (arith, count_in-tokens_below t n, count_held_idle t conns);
  token_length = length-replicate conns 0;
  working_length = length-replicate conns false;
  owners_length = length-replicate n none;
  owned = λ conn h busy. absurd (false≢true (sym (working_idle conn conns) ∙ busy));
}

-- A token that is free is in no request's hands.
free_not_held :
    (n conns : ℕ) (rl : ReqLimiter) (t : ℕ) (ts : List ℕ) (conn : ℕ)
    → Inv n conns rl
    → rl.chan ≡ t ∷ ts
    → conn < conns
    → get_or rl.working conn false ≡ true
    → t ≢ get_or rl.token conn 0
free_not_held n conns rl t ts conn inv e h busy same =
    let held = count_held_some conn rl.token rl.working (omega (arith, h, inv.token_length)) busy in
    let one = inv.once (get_or rl.token conn 0) in
    let free : count_in (get_or rl.token conn 0) rl.chan
        ≡ 1 + count_in (get_or rl.token conn 0) ts =
      ap (count_in (get_or rl.token conn 0)) e
      ∙ rw ((==_iff t (get_or rl.token conn 0)).1 same) refl in
    ground (arith, held, one, free)

free_token_below :
    (n conns : ℕ) (rl : ReqLimiter) (t : ℕ) (ts : List ℕ)
    → Inv n conns rl
    → rl.chan ≡ t ∷ ts
    → t < n
free_token_below n conns rl t ts inv e =
    let one = inv.once t in
    let free : count_in t rl.chan ≡ 1 + count_in t ts =
      ap (count_in t) e ∙ rw ((==_iff t t).1 refl) refl in
    ground (arith, one, free)

taken-Inv :
    (n conns : ℕ) (rl : ReqLimiter) (t : ℕ) (ts : List ℕ) (conn : ℕ)
    → Inv n conns rl
    → rl.chan ≡ t ∷ ts
    → conn < conns
    → get_or rl.working conn false ≡ false
    → Inv n conns (record {
      chan = ts;
      owners = set rl.owners t (some conn);
      histories = set rl.histories t true;
      token = set rl.token conn t;
      working = set rl.working conn true;
    })
taken-Inv n conns rl t ts conn inv e h idle =
    let below = free_token_below n conns rl t ts inv e in
    let in_token : conn < length rl.token = omega (arith, h, inv.token_length) in
    let in_working : conn < length rl.working = omega (arith, h, inv.working_length) in
    let in_owners : t < length rl.owners = omega (arith, below, inv.owners_length) in
    record {
      once = λ u. omega (
        arith,
        inv.once u,
        ap (count_in u) e,
        count_held-take u t conn rl.token rl.working in_token in_working idle,
      );
      token_length = length-set rl.token conn t ∙ inv.token_length;
      working_length = length-set rl.working conn true ∙ inv.working_length;
      owners_length = length-set rl.owners t (some conn) ∙ inv.owners_length;
      owned = λ c hc busy. elim (Bool-cases (c == conn)) [
        | inl e1 ↦
            let same = (==_iff c conn).0 e1 in
            (λ i.
              get_or (set rl.owners t (some conn)) (get_or (set rl.token conn t) (same i) 0) none)
            ∙ ap (λ u. get_or (set rl.owners t (some conn)) u none)
                (get_or-set_self rl.token conn t 0 in_token)
            ∙ get_or-set_self rl.owners t (some conn) none in_owners
            ∙ ap some (sym same)
        | inr e1 ↦
            let apart : conn ≢ c = λ p. false≢true (sym e1 ∙ (==_iff c conn).1 (sym p)) in
            let busy0 = sym (get_or-set rl.working conn c true false apart) ∙ busy in
            ap (λ u. get_or (set rl.owners t (some conn)) u none)
              (get_or-set rl.token conn c t 0 apart)
            ∙ get_or-set rl.owners t (get_or rl.token c 0) (some conn) none
                (free_not_held n conns rl t ts c inv e hc busy0)
            ∙ inv.owned c hc busy0
      ];
    }

put-Inv :
    (n conns : ℕ) (rl : ReqLimiter) (conn : ℕ)
    → Inv n conns rl
    → conn < conns
    → get_or rl.working conn false ≡ true
    → Inv n conns (record rl {
      chan = rl.chan ++ (get_or rl.token conn 0 ∷ []);
      histories = set rl.histories (get_or rl.token conn 0) false;
      working = set rl.working conn false;
    })
put-Inv n conns rl conn inv h busy =
    let in_token : conn < length rl.token = omega (arith, h, inv.token_length) in
    let in_working : conn < length rl.working = omega (arith, h, inv.working_length) in
    record {
      once = λ u. omega (
        arith,
        inv.once u,
        count_in-append u rl.chan (get_or rl.token conn 0 ∷ []),
        count_held-put u conn rl.token rl.working in_token in_working busy,
      );
      token_length = inv.token_length;
      working_length = length-set rl.working conn false ∙ inv.working_length;
      owners_length = inv.owners_length;
      owned = λ c hc busy'. elim (Bool-cases (c == conn)) [
        | inl e1 ↦ absurd (
            false≢true (
              sym (get_or-set_self rl.working conn false false in_working)
              ∙ ap (λ u. get_or (set rl.working conn false) u false) (sym ((==_iff c conn).0 e1))
              ∙ busy'))
        | inr e1 ↦
            let apart : conn ≢ c = λ p. false≢true (sym e1 ∙ (==_iff c conn).1 (sym p)) in
            inv.owned c hc (sym (get_or-set rl.working conn c false false apart) ∙ busy')
      ];
    }

get-Inv :
    (n conns : ℕ) (rl rl' : ReqLimiter) (conn : ℕ)
    → Inv n conns rl
    → conn < conns
    → get_or rl.working conn false ≡ false
    → get_token rl conn ≡ some rl'
    → Inv n conns rl'
unfolding get_token take_token
get-Inv n conns rl rl' conn inv h idle got = go rl.chan refl got
  where
    go : (ch : List ℕ) → rl.chan ≡ ch → take_token rl conn ch ≡ some rl' → Inv n conns rl'
    go [] e q = cc
    go (t ∷ ts) e q =
        subst (Inv n conns) (some_inj.0 q) (taken-Inv n conns rl t ts conn inv e h idle)

-- The token of a working request, given back.
put_token_known :
    (rl : ReqLimiter) (conn owner : ℕ)
    → get_or rl.owners (get_or rl.token conn 0) none ≡ some owner
    → put_token rl conn
      ≡ some (record rl {
        chan = rl.chan ++ (get_or rl.token conn 0 ∷ []);
        histories = set rl.histories (get_or rl.token conn 0) false;
        working = set rl.working owner false;
      })
unfolding put_token give_back
put_token_known rl conn owner e = ap (give_back rl (get_or rl.token conn 0)) e

Calls-Inv : (n conns : ℕ) (rl : ReqLimiter) → Calls n conns rl → Inv n conns rl
Calls-Inv n conns rl starts = start-Inv n conns
Calls-Inv n conns rl (gets_token rl0 rl' conn calls h idle got) =
    get-Inv n conns rl0 rl conn (Calls-Inv n conns rl0 calls) h idle got
Calls-Inv n conns rl (puts_token rl0 rl' conn calls h busy put) =
    let inv = Calls-Inv n conns rl0 calls in
    subst (Inv n conns)
      (some_inj.0 (sym (put_token_known rl0 conn conn (inv.owned conn h busy)) ∙ put))
      (put-Inv n conns rl0 conn inv h busy)

-- However requests called `Get` when not at work and `Put` when at work, on a limiter that was new
-- with `n` tokens, each of the `n` is in one place, free or held by one working request, and no
-- other number is.
pub places-Calls :
    (n conns : ℕ) (rl : ReqLimiter) (t : ℕ)
    → Calls n conns rl
    → places t rl ≡ (if ltb t n then 1 else 0)
places-Calls n conns rl t calls = (Calls-Inv n conns rl calls).once t

-- However requests called `Get` when not at work and `Put` when at work, on a limiter that was new,
-- a working request can give its token back: it owns it, and is not at work afterwards.
pub put_token-Calls :
    (n conns : ℕ) (rl : ReqLimiter) (conn : ℕ)
    → Calls n conns rl
    → conn < conns
    → get_or rl.working conn false ≡ true
    → (rl' : ReqLimiter) × (put_token rl conn ≡ some rl') × (get_or rl'.working conn false ≡ false)
put_token-Calls n conns rl conn calls h busy =
    let inv = Calls-Inv n conns rl calls in
    (
      record rl {
        chan = rl.chan ++ (get_or rl.token conn 0 ∷ []);
        histories = set rl.histories (get_or rl.token conn 0) false;
        working = set rl.working conn false;
      },
      put_token_known rl conn conn (inv.owned conn h busy),
      get_or-set_self rl.working conn false false (omega (arith, h, inv.working_length)),
    )
