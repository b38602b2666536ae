-- ===== src/Memcache/Token.antt =====
-- memcache/token.go: the tokens of the requests at work, and the requests that hold them, by their
-- connections. The times and texts of the histories are not modelled.
pub mod Once
use gobeansdb.Base.{
  ℕ, zero, suc, Bool, true, false, Option, none, some, List, [], ◌∷◌, ◌++◌, get_or, set, replicate,
  ◌==◌, if◌then◌else◌,
}
use gobeansdb.Config.{McConfig}

-- `chan` holds the free tokens; `owners` and `histories` are indexed by token. The last two are the
-- fields Token and Working of the requests, indexed by connection.
pub record ReqLimiter : Type 0 where
  pub chan : List ℕ
  pub owners : List (Option ℕ)
  pub histories : List Bool
  pub token : List ℕ
  pub working : List Bool

abbrev pub tokens_below : ℕ → List ℕ
tokens_below zero = []
tokens_below (suc n) = tokens_below n ++ (n ∷ [])

-- `NewReqLimiter`, with the requests of `conns` new connections.
abbrev pub new_req_limiter : ℕ → ℕ → ReqLimiter
new_req_limiter n conns = record {
  chan = tokens_below n;
  owners = replicate n none;
  histories = replicate n false;
  token = replicate conns 0;
  working = replicate conns false;
}

-- `InitTokens`
abbrev pub init_tokens : McConfig → ℕ → ReqLimiter
init_tokens conf conns = new_req_limiter (if conf.max_req == 0 then 16 else conf.max_req) conns

unfoldable pub take_token : ReqLimiter → ℕ → List ℕ → Option ReqLimiter
take_token rl conn [] = none
take_token rl conn (t ∷ ts) = some (record {
  chan = ts;
  owners = set rl.owners t (some conn);
  histories = set rl.histories t true;
  token = set rl.token conn t;
  working = set rl.working conn true;
})

-- `Get`; `none` while no token is free, when it waits.
unfoldable pub get_token : ReqLimiter → ℕ → Option ReqLimiter
unfolding take_token
get_token rl conn = take_token rl conn rl.chan

unfoldable pub give_back : ReqLimiter → ℕ → Option ℕ → Option ReqLimiter
give_back rl t none = none
give_back rl t (some owner) = some (record rl {
  chan = rl.chan ++ (t ∷ []);
  histories = set rl.histories t false;
  working = set rl.working owner false;
})

-- `Put`; without an owner the code panics.
unfoldable pub put_token : ReqLimiter → ℕ → Option ReqLimiter
unfolding give_back
put_token rl conn = let t = get_or rl.token conn 0 in give_back rl t (get_or rl.owners t none)
