-- ===== src/Memcache/Serve.antt =====
-- `ServeOnce` and `Serve` of memcache/server.go. Whether the request is overdue after the read, and
-- after the processing, are parameters of each round; the writes to the connection do not fail.
pub mod Release
use gobeansdb.Base.{
  ℕ, zero, suc, Bool, true, false, not, ◌&&◌, Option, none, some, List, [], ◌∷◌, ◌++◌, get_or, ◌==◌,
  if◌then◌else◌,
}
use gobeansdb.Base.Int.{pos}
use gobeansdb.Config.{McConfig}
use gobeansdb.Cmem.{BeansdbRl, free}
use gobeansdb.Memcache.{
  Request, Item, Response, new_response, clear_request, Status, not_stored, client_error,
  recv_timeout, process_timeout, other_status, Command, name_of,
}
use gobeansdb.Memcache.Text.{codes}
use gobeansdb.Memcache.Token.{ReqLimiter, put_token}
use gobeansdb.Memcache.Receive.{
  Read, RequestError, ReadStep, done, waits, read_request, network_error, invalid_cmd,
  value_too_large, oom, bad_data_chunk, non_memcache_cmd, alloc_failed, panicked, holding,
  with_item,
}
use gobeansdb.Memcache.Send.{write_response, clean_buffer}
use gobeansdb.Memcache.Process.{World, StorageClient, Stats, System, Processed, process}

-- A connection and what it shares with the others. `output` is what was written to it, and `failed`
-- whether the last round returned an error.
pub record Conn (S : Type 0) : Type 0 where
  pub req : Request
  pub input : List ℕ
  pub output : List ℕ
  pub close_after_reply : Bool
  pub failed : Bool
  pub limiter : ReqLimiter
  pub counters : Stats
  pub world : World S

pub data ServeStep (S : Type 0) : Type 0 where
  served : Conn S → ServeStep S
  waiting : ServeStep S

abbrev pub error_text : RequestError → List ℕ
error_text network_error = codes "network error"
error_text invalid_cmd = codes "invalid cmd"
error_text value_too_large = codes "value too large"
error_text oom = codes "memory shortage"
error_text bad_data_chunk = codes "bad data chunk"
error_text non_memcache_cmd = codes "non memcache command"
error_text alloc_failed = codes "fail to alloc"
error_text panicked = []

-- `err != nil`
abbrev pub is_error : Option (List ℕ) → Bool
is_error none = false
is_error (some text) = true

-- `if req.Item != nil { req.Item.CArray.Free() }`
abbrev pub free_item : Option Item → BeansdbRl → BeansdbRl
free_item none rl = rl
free_item (some item) rl = (free item.array rl).1

-- `if req.Working { RL.Put(req) }`; the Put of a token without owner, a panic, leaves all as it is.
abbrev pub or_same : Option ReqLimiter → ReqLimiter → ReqLimiter
or_same none limiter = limiter
or_same (some limiter') limiter = limiter'

unfoldable pub release : ℕ → ReqLimiter → ReqLimiter
release id limiter =
    if get_or limiter.working id false then or_same (put_token limiter id) limiter else limiter

-- The response that replaces a late one.
abbrev pub late_response : Response
late_response = record new_response { status = process_timeout; msg = codes "process_timeout" }

-- The response to a request that came too late.
abbrev pub overdue_response : Response
overdue_response = record new_response { status = recv_timeout; msg = codes "recv_timeout" }

module _ {S : Type 0} where
  -- The deferred function, for the response that there is at the end.
  unfoldable pub finish : ℕ → Option Response → Conn S → ServeStep S
  finish id none c = served (record c { req = clear_request c.req; limiter = release id c.limiter })
  finish id (some resp) c = served (record c {
    req = clear_request c.req;
    limiter = release id c.limiter;
    world = record c.world { rl = (clean_buffer resp c.world.rl).1 };
  })

  abbrev pub dropped : Response → Conn S → Conn S
  dropped resp c = record c { world = record c.world { rl = (clean_buffer resp c.world.rl).1 } }

  abbrev pub written : Response → Conn S → Conn S
  written resp c = record c { output = c.output ++ write_response resp; failed = false }

  -- From `if !resp.Noreply` on. A response that is late is not written, nor is the other in its place.
  pub respond : ℕ → Bool → Bool → Response → Conn S → ServeStep S
  unfolding finish
  respond id read_timeout late resp c =
      if resp.noreply
      then finish id (some resp) c
      else if not read_timeout && late
      then finish id (some late_response) (dropped resp c)
      else finish id (some resp) (written resp c)

  -- What follows `Process`; a response of nil closes the connection.
  pub after_response : ℕ → Bool → Option Response → Conn S → ServeStep S
  unfolding respond finish
  after_response id late none c =
      finish id none (record c { close_after_reply = true; failed = false })
  after_response id late (some resp) c = respond id false late resp c

  module _ (conf : McConfig) (malloc : ℕ → ℕ) (client : StorageClient S) (system : System)
      (version_text : List ℕ) where
    -- The response to a failed read.
    pub answer_error : RequestError → Request → Conn S → Option Response × Conn S
    answer_error network_error req c = (none, record c { close_after_reply = true })
    answer_error panicked req c = (none, c)
    answer_error non_memcache_cmd req c =
        let (status_word, msg, world) = client.do_process (name_of req.cmd) req.keys c.world in
        (
          some (record new_response { status = other_status status_word; msg = msg }),
          record c { world = world },
        )
    answer_error oom req c = (some (record new_response { status = not_stored }), c)
    answer_error e req c =
        (some (record new_response { status = client_error; msg = error_text e }), c)

    pub after_error : ℕ → Bool → Option Response × Conn S → ServeStep S
    unfolding respond finish
    after_error id late (none, c) = finish id none c
    after_error id late (some resp, c) = respond id false late resp c

    -- A panic in `Process` is recovered from.
    pub after_process : ℕ → Bool → Option (Processed S) → Conn S → ServeStep S
    unfolding after_response finish
    after_process id late none c = finish id none c
    after_process id late (some p) c =
        after_response id late p.resp
          (record c { counters = p.counters; world = p.world; failed = is_error p.err })

    -- The connection after the read, and after the item of a failed read was freed.
    abbrev pub read_into : Read → BeansdbRl → Conn S → Conn S
    read_into r rl c = record c {
      req = r.req;
      input = r.rest;
      limiter = r.limiter;
      failed = false;
      world = record c.world { rl = rl };
    }

    pub on_read : ℕ → Bool → Bool → Option RequestError → Read → Conn S → ServeStep S
    unfolding after_error after_process
    on_read id overdue late (some panicked) r c = finish id none (read_into r r.rl c)
    on_read id overdue late (some e) r c =
        after_error id late (answer_error e r.req (read_into r (free_item r.req.item r.rl) c))
    on_read id overdue late none r c =
        if overdue
        then respond id true late overdue_response (read_into r r.rl c)
        else after_process id late
            (process conf client system version_text r.req c.counters
              (record c.world { rl = r.rl }))
            (read_into r r.rl c)

    pub after_read : ℕ → Bool → Bool → ReadStep → Conn S → ServeStep S
    unfolding on_read
    after_read id overdue late waits c = waiting
    after_read id overdue late (done r) c = on_read id overdue late r.error r c

    -- `ServeOnce`; `waiting` is where it waits for a token.
    unfoldable pub serve_once : ℕ → Bool → Bool → Conn S → ServeStep S
    unfolding after_read
    serve_once id overdue late c =
        after_read id overdue late (read_request conf malloc id c.req c.input c.limiter c.world.rl)
          c

    -- The loop of `Serve`, over rounds with their delays, until the connection is to be closed or
    -- a round returns an error.
    unfoldable pub serve : ℕ → List (Bool × Bool) → Conn S → ServeStep S
    serve id [] c = served c
    serve id ((overdue, late) ∷ rounds) c =
        let next : ServeStep S = elim (serve_once id overdue late c) [
          | waiting ↦ waiting
          | served c' ↦ if c'.failed then served c' else serve id rounds c'
        ] in
        if c.close_after_reply then served c else next
