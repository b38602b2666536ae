-- ===== src/Memcache/Serve/Release.antt =====
-- `ServeOnce` and `Serve` of memcache/server.go: the token of the connection's request, across every way
-- a round can end.
use gobeansdb.Base.{
  ℕ, ◌<◌, ◌≡◌, refl, sym, Bool, true, false, not, ◌&&◌, inl, inr, Bool-cases, Option, none, some,
  List, [], ◌∷◌, get_or, if◌then◌else◌,
}
use gobeansdb.Config.{McConfig}
use gobeansdb.Memcache.{Request, Response}
use gobeansdb.Memcache.Token.{ReqLimiter}
use gobeansdb.Memcache.Token.Once.{Calls, gets_token, puts_token, put_token-Calls}
use gobeansdb.Memcache.Receive.{
  Read, RequestError, ReadStep, done, waits, read_request, network_error, invalid_cmd,
  value_too_large, oom, bad_data_chunk, non_memcache_cmd, alloc_failed, panicked,
}
use gobeansdb.Memcache.Receive.Balance.{
  HasToken, kept, taken, IsBalanced, unfinished, received, unchanged, read_request-IsBalanced,
}
use gobeansdb.Memcache.Process.{StorageClient, System, Processed, process}
use gobeansdb.Memcache.Serve.{
  Conn, ServeStep, served, waiting, release, finish, respond, answer_error, late_response, is_error,
  dropped, written, after_response, read_into, free_item, overdue_response, on_read, after_error,
  after_process, after_read, serve_once, serve,
}
use mathlib.Core.Path.{subst}

-- What a round leaves: it waits, or the tokens are in order and the request is not at work.
pub data IsReleased {S : Type 0} (n conns id : ℕ) : ServeStep S → Type 0 where
  waits_still : IsReleased n conns id waiting
  free_again :
      (c : Conn S)
      → Calls n conns c.limiter
      → get_or c.limiter.working id false ≡ false
      → IsReleased n conns id (served c)

module _ (n conns id : ℕ) (small : id < conns) where
  release-Calls :
      (limiter : ReqLimiter)
      → Calls n conns limiter
      → Calls n conns (release id limiter) × (get_or (release id limiter).working id false ≡ false)
  unfolding release
  release-Calls limiter calls = elim (Bool-cases (get_or limiter.working id false)) [
    | inr idle ↦ rw idle (calls, idle)
    | inl busy ↦
        let (now, put, free) = put_token-Calls n conns limiter id calls small busy in
        rw (busy, put) (puts_token limiter now id calls small busy put, free)
  ]

  read-Calls :
      (start now : ReqLimiter)
      → Calls n conns start
      → get_or start.working id false ≡ false
      → HasToken start id now
      → Calls n conns now
  read-Calls start now calls idle (kept e) = subst (Calls n conns) (sym e) calls
  read-Calls start now calls idle (taken e) = gets_token start now id calls small idle e

  module _ {S : Type 0} where
    finish-IsReleased :
        (resp : Option Response) (c : Conn S)
        → Calls n conns c.limiter
        → IsReleased n conns id (finish id resp c)
    unfolding finish
    finish-IsReleased none c calls =
        let (after, idle) = release-Calls c.limiter calls in free_again _ after idle
    finish-IsReleased (some resp) c calls =
        let (after, idle) = release-Calls c.limiter calls in free_again _ after idle

    if-IsReleased :
        (b : Bool) (x y : ServeStep S)
        → IsReleased n conns id x
        → IsReleased n conns id y
        → IsReleased n conns id (if b then x else y)
    if-IsReleased true x y p q = p
    if-IsReleased false x y p q = q

    respond-IsReleased :
        (timeout late : Bool) (resp : Response) (c : Conn S)
        → Calls n conns c.limiter
        → IsReleased n conns id (respond id timeout late resp c)
    unfolding respond
    respond-IsReleased timeout late resp c calls =
        if-IsReleased resp.noreply _ _ (finish-IsReleased (some resp) c calls) (
          if-IsReleased (not timeout && late) _ _
            (finish-IsReleased (some late_response) (dropped resp c) calls)
            (finish-IsReleased (some resp) (written resp c) calls))

    after_response-IsReleased :
        (late : Bool) (resp : Option Response) (c : Conn S)
        → Calls n conns c.limiter
        → IsReleased n conns id (after_response id late resp c)
    unfolding after_response
    after_response-IsReleased late none c calls =
        finish-IsReleased none (record c { close_after_reply = true; failed = false }) calls
    after_response-IsReleased late (some resp) c calls = respond-IsReleased false late resp c calls

    module _ (conf : McConfig) (malloc : ℕ → ℕ) (client : StorageClient S) (system : System)
        (version_text : List ℕ) where
      answer_error-limiter :
          (e : RequestError) (req : Request) (c : Conn S)
          → (answer_error conf malloc client system version_text e req c).1.limiter ≡ c.limiter
      unfolding answer_error
      answer_error-limiter network_error req c = refl
      answer_error-limiter panicked req c = refl
      answer_error-limiter non_memcache_cmd req c = refl
      answer_error-limiter oom req c = refl
      answer_error-limiter invalid_cmd req c = refl
      answer_error-limiter value_too_large req c = refl
      answer_error-limiter bad_data_chunk req c = refl
      answer_error-limiter alloc_failed req c = refl

      after_error-IsReleased :
          (late : Bool) (a : Option Response × Conn S)
          → Calls n conns a.1.limiter
          → IsReleased n conns id (after_error conf malloc client system version_text id late a)
      unfolding after_error
      after_error-IsReleased late (none, c) calls = finish-IsReleased none c calls
      after_error-IsReleased late (some resp, c) calls = respond-IsReleased false late resp c calls

      after_process-IsReleased :
          (late : Bool) (p : Option (Processed S)) (c : Conn S)
          → Calls n conns c.limiter
          → IsReleased n conns id (after_process conf malloc client system version_text id late p c)
      unfolding after_process
      after_process-IsReleased late none c calls = finish-IsReleased none c calls
      after_process-IsReleased late (some p) c calls =
          after_response-IsReleased late p.resp
            (record c { counters = p.counters; world = p.world; failed = is_error p.err }) calls

      failed-IsReleased :
          (late : Bool) (e : RequestError) (r : Read) (c : Conn S)
          → Calls n conns r.limiter
          → IsReleased n conns id (
              after_error conf malloc client system version_text id late (
                answer_error conf malloc client system version_text e r.req (
                  read_into conf malloc client system version_text r
                    (free_item r.req.item r.rl)
                    c)))
      failed-IsReleased late e r c calls = after_error-IsReleased late _ (
          subst (Calls n conns)
            (sym (
              answer_error-limiter e r.req
                (read_into conf malloc client system version_text r (free_item r.req.item r.rl) c)))
            calls)

      on_read-IsReleased :
          (overdue late : Bool) (e : Option RequestError) (r : Read) (c : Conn S)
          → Calls n conns r.limiter
          → IsReleased n conns id
              (on_read conf malloc client system version_text id overdue late e r c)
      unfolding on_read
      on_read-IsReleased overdue late none r c calls =
          if-IsReleased overdue _ _
            (respond-IsReleased true late overdue_response
              (read_into conf malloc client system version_text r r.rl c) calls)
            (after_process-IsReleased late
              (process conf client system version_text r.req c.counters
                (record c.world { rl = r.rl }))
              (read_into conf malloc client system version_text r r.rl c) calls)
      on_read-IsReleased overdue late (some panicked) r c calls =
          finish-IsReleased none (read_into conf malloc client system version_text r r.rl c) calls
      on_read-IsReleased overdue late (some network_error) r c calls =
          failed-IsReleased late network_error r c calls
      on_read-IsReleased overdue late (some invalid_cmd) r c calls =
          failed-IsReleased late invalid_cmd r c calls
      on_read-IsReleased overdue late (some value_too_large) r c calls =
          failed-IsReleased late value_too_large r c calls
      on_read-IsReleased overdue late (some oom) r c calls = failed-IsReleased late oom r c calls
      on_read-IsReleased overdue late (some bad_data_chunk) r c calls =
          failed-IsReleased late bad_data_chunk r c calls
      on_read-IsReleased overdue late (some non_memcache_cmd) r c calls =
          failed-IsReleased late non_memcache_cmd r c calls
      on_read-IsReleased overdue late (some alloc_failed) r c calls =
          failed-IsReleased late alloc_failed r c calls

      after_read-IsReleased :
          (overdue late : Bool) (s : ReadStep) (c : Conn S)
          → Calls n conns c.limiter
          → get_or c.limiter.working id false ≡ false
          → IsBalanced c.limiter id c.world.rl.set_data s
          → IsReleased n conns id
              (after_read conf malloc client system version_text id overdue late s c)
      unfolding after_read
      after_read-IsReleased overdue late waits c calls idle unfinished = waits_still
      after_read-IsReleased overdue late (done r) c calls idle (received r' fine token) =
          on_read-IsReleased overdue late r.error r c
            (read-Calls c.limiter r.limiter calls idle token)
      after_read-IsReleased overdue late (done r) c calls idle (unchanged r' settled token) =
          on_read-IsReleased overdue late r.error r c
            (read-Calls c.limiter r.limiter calls idle token)

      -- Where the tokens are in order and the request of the connection is not at work, a round of serving
      -- it, whatever the input, the store and the delays, waits for a token or leaves it so.
      pub serve_once-IsReleased :
          (overdue late : Bool) (c : Conn S)
          → Calls n conns c.limiter
          → get_or c.limiter.working id false ≡ false
          → IsReleased n conns id
              (serve_once conf malloc client system version_text id overdue late c)
      unfolding serve_once
      serve_once-IsReleased overdue late c calls idle =
          after_read-IsReleased overdue late
            (read_request conf malloc id c.req c.input c.limiter c.world.rl) c calls idle
            (read_request-IsBalanced c.limiter id conf malloc c.req c.input c.world.rl)

      -- Where `Get` of requests not at work and `Put` of requests at work lead from a new limiter to
      -- the one there is, and the request of the connection is not at work, serving the connection
      -- over any rounds, whatever the input, the store and the delays, waits for a token or leaves a
      -- limiter of that kind and the request not at work.
      pub serve-IsReleased :
          (rounds : List (Bool × Bool)) (c : Conn S)
          → Calls n conns c.limiter
          → get_or c.limiter.working id false ≡ false
          → IsReleased n conns id (serve conf malloc client system version_text id rounds c)
      unfolding serve
      serve-IsReleased [] c calls idle = free_again c calls idle
      serve-IsReleased ((overdue, late) ∷ rounds) c calls idle =
          if-IsReleased c.close_after_reply (served c) _ (free_again c calls idle) (
            go (serve_once conf malloc client system version_text id overdue late c)
              (serve_once-IsReleased overdue late c calls idle)
              (λ c' calls' idle'. serve-IsReleased rounds c' calls' idle'))
        where
          go :
              (s : ServeStep S)
              → IsReleased n conns id s
              → ((c' : Conn S)
                  → Calls n conns c'.limiter
                  → get_or c'.limiter.working id false ≡ false
                  → IsReleased n conns id
                      (serve conf malloc client system version_text id rounds c'))
              → IsReleased n conns id (elim s [
                | waiting ↦ waiting
                | served c' ↦
                    if c'.failed
                    then served c'
                    else serve conf malloc client system version_text id rounds c'
              ])
          go waiting released later = waits_still
          go (served c') (free_again c2 calls' idle') later =
              if-IsReleased c'.failed (served c') _ (free_again c' calls' idle')
                (later c' calls' idle')
