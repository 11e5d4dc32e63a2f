-- ===== src/Client/Requests/Whole/Bounded.antt =====
-- `Do` of client.go ends, after a bounded number of exchanges.
use klayengo.Prelude.{
  ℕ, suc, ◌+◌, ◌≤◌, ◌<◌, ◌≡◌, refl, Bool, true, false, ◌&&◌, not, String, Option, none, some, arith,
  Option-cases, inl, inr,
}
use klayengo.Prelude.Int.{ℤ, pos}
use klayengo.Prelude.Int64.{saturating_sub64}
use klayengo.Http.{Request, Response}
use klayengo.Errors.{Error}
use klayengo.Backoff.{Float}
use klayengo.Dedup.{DeduplicationTracker, get_or_create_entry, complete, wait}
use klayengo.Provider.{Cache}
use klayengo.Client.{
  Exchange, Env, Call, get_endpoint, execute_middleware, request_start, request_done, cache_miss,
  deduplication_hit,
}
use klayengo.Client.Requests.{CacheProvider, Rules, ClientState, Reached, note, note_end, attempts}
use klayengo.Client.Requests.Bounded.{
  Bounded, and_then-Bounded, note-sent, note_end-sent, attempts-Bounded,
}
use klayengo.Client.Requests.Hits.{look_up}
use klayengo.Client.Requests.Hits.Bounded.{FoundBy, look_up-FoundBy}
use klayengo.Client.Requests.Fetch.{in_flight}
use klayengo.Client.Requests.Fetch.Bounded.{store-Bounded, fetch-Bounded}
use klayengo.Client.Requests.Whole.{
  status_of, complete_owned, wind_up, proceed, or_miss, by_cache, is_cache_enabled, shared,
  by_owner, by_dedup, enter, do_request,
}

module _ (f : Float) (env : Env f) (cache : Cache) (provider : CacheProvider f env)
    (r : Rules f env cache provider) (sent : env.World → ℕ)
    (sent-now : (w : env.World) → sent (env.now w).1 ≡ sent w)
    (sent-get : (entries : provider.Entries) (key : String) (w : env.World)
      → sent (provider.get entries key w).1 ≡ sent w)
    (sent-set : (entries : provider.Entries) (key : String) (resp : Response) (ttl : ℤ)
        (w : env.World)
      → sent (provider.set entries key resp ttl w).1 ≡ sent w) where
  abbrev S : Type 0
  S = ClientState f env cache provider

  abbrev BoundedBy : ℕ → Reached f env cache provider → Type 0
  BoundedBy k x = Bounded f env cache provider r sent k x

  complete_owned-Bounded :
      (owned : Bool) (req : Request) (k : ℕ) (resp : Option Response) (err : Option Error) (s : S)
      → sent s.base.world ≤ k
      → BoundedBy k (complete_owned f env cache provider r owned req resp err s)
  unfolding complete_owned
  complete_owned-Bounded false req k resp err s below = (refl, below)
  complete_owned-Bounded true req k resp err s below = elim (Option-cases s.deduplication) [
    | inl h ↦ ground (arith, h, below)
    | inr (t, h) ↦ elim (Option-cases (complete t (r.dedup_key_func req) resp err)) [
      | inl e ↦ ground (arith, h, e, below)
      | inr (t', e) ↦ ground (arith, h, e, below)
    ]
  ]

  wind_up-Bounded :
      (owned enabled : Bool) (call : Call f env) (k : ℕ) (resp : Option Response)
      (err : Option Error) (s : S)
      → sent s.base.world ≤ k
      → BoundedBy k (wind_up f env cache provider r owned enabled call resp err s)
  unfolding wind_up
  wind_up-Bounded owned enabled call k resp err s below =
      let status = status_of f env cache provider r resp in
      let noted = note_end f env cache provider r call status s in
      and_then-Bounded f env cache provider r sent k _
        (complete_owned f env cache provider r owned call.req)
        (store-Bounded f env cache provider r sent sent-now sent-get sent-set
          (enabled && not (in_flight f env cache provider r enabled r.cache_mode)) call.req resp err
          k noted
          (omega (arith, below, note_end-sent f env cache provider r sent sent-now call status s)))
        (complete_owned-Bounded owned call.req k)

  shared-Bounded :
      (call : Call f env) (o : Option Exchange) (k : ℕ) (s : S)
      → sent s.base.world ≤ k
      → BoundedBy k (shared f env cache provider r call o s)
  unfolding shared
  shared-Bounded call none k s below = (refl, below)
  shared-Bounded call (some (resp, err)) k s below =
      let (t, w) = env.now s.base.world in
      let read = record s { base = record s.base { world = w } } in
      let done =
        request_done call.req.method (get_endpoint call.req) (status_of f env cache provider r resp)
          (saturating_sub64 t call.start_time) in
      (
        refl,
        omega (
          arith,
          below,
          sent-now s.base.world,
          note-sent f env cache provider r sent
              (deduplication_hit call.req.method (get_endpoint call.req))
              (note f env cache provider r done read),
          note-sent f env cache provider r sent done read,
        ),
      )

  module _ (fuel m : ℕ)
      (try_all : (call : Call f env) (k : ℕ) (s : S)
        → sent s.base.world ≤ k
        → BoundedBy (suc (k + m)) (attempts f env cache provider r.config fuel call s)) where
    proceed-Bounded :
        (owned enabled : Bool) (call : Call f env) (k : ℕ) (s : S)
        → sent s.base.world ≤ k
        → BoundedBy (suc (k + m)) (proceed f env cache provider r owned enabled fuel call s)
    unfolding proceed
    proceed-Bounded owned enabled call k s below =
        and_then-Bounded f env cache provider r sent (suc (k + m)) _
          (wind_up f env cache provider r owned enabled call)
          (fetch-Bounded f env cache provider r sent sent-now sent-get sent-set fuel m try_all
            (in_flight f env cache provider r enabled r.cache_mode) call k s below)
          (wind_up-Bounded owned enabled call (suc (k + m)))

    or_miss-Bounded :
        (owned : Bool) (call : Call f env) (k : ℕ)
        (found : S × Option (Reached f env cache provider))
        → FoundBy f env cache provider r sent sent-now sent-get sent-set fuel m try_all k found
        → BoundedBy (suc (k + m)) (or_miss f env cache provider r owned fuel call found)
    unfolding or_miss
    or_miss-Bounded owned call k (s, some reached) h = h
    or_miss-Bounded owned call k (s, none) h =
        let missed = cache_miss call.req.method (get_endpoint call.req) in
        proceed-Bounded owned true call k (note f env cache provider r missed s)
          (omega (arith, h, note-sent f env cache provider r sent missed s))

    by_cache-Bounded :
        (enabled owned : Bool) (call : Call f env) (k : ℕ) (s : S)
        → sent s.base.world ≤ k
        → BoundedBy (suc (k + m)) (by_cache f env cache provider r enabled owned fuel call s)
    unfolding by_cache
    by_cache-Bounded false owned call k s below = proceed-Bounded owned false call k s below
    by_cache-Bounded true owned call k s below =
        or_miss-Bounded owned call k
          (look_up f env cache provider r fuel call (r.cache_key_func call.req) s)
          (look_up-FoundBy f env cache provider r sent sent-now sent-get sent-set fuel m try_all
            call (r.cache_key_func call.req) k s below)

    by_owner-Bounded :
        (owned : Bool) (t : DeduplicationTracker) (p : ℕ) (call : Call f env) (k : ℕ) (s : S)
        → sent s.base.world ≤ k
        → BoundedBy (suc (k + m)) (by_owner f env cache provider r owned t p fuel call s)
    unfolding by_owner
    by_owner-Bounded true t p call k s below =
        by_cache-Bounded (is_cache_enabled f env cache provider r call.req s) true call k s below
    by_owner-Bounded false t p call k s below =
        shared-Bounded call (wait t p) (suc (k + m)) s (omega (arith, below))

    by_dedup-Bounded :
        (o : Option DeduplicationTracker) (wanted : Bool) (call : Call f env) (k : ℕ) (s : S)
        → sent s.base.world ≤ k
        → BoundedBy (suc (k + m)) (by_dedup f env cache provider r o wanted fuel call s)
    unfolding by_dedup
    by_dedup-Bounded none wanted call k s below =
        by_cache-Bounded (is_cache_enabled f env cache provider r call.req s) false call k s below
    by_dedup-Bounded (some t) false call k s below =
        by_cache-Bounded (is_cache_enabled f env cache provider r call.req s) false call k s below
    by_dedup-Bounded (some t) true call k s below =
        let (t', p, owned) = get_or_create_entry t (r.dedup_key_func call.req) in
        by_owner-Bounded owned t' p call k (record s { deduplication = some t' }) below

  module _ (sent-random : (w : env.World) → sent (env.random w).1 ≡ sent w)
      (sent-sleep : (d : ℤ) (w : env.World) → sent (env.sleep d w) ≡ sent w)
      (sent-request_id : (w : env.World) → sent (r.request_id w).1 ≡ sent w)
      (sent-execute : (req : Request) (w : env.World)
        → sent (execute_middleware f env r.config.middleware req w).1 ≤ suc (sent w))
      (no_policy : r.config.retry_policy ≡ none) (m : ℕ) (maximum : r.config.max_retries ≡ pos m)
      (fits : m < 9223372036854775807) where
    -- Without a retry policy and with a maximum `m` of retries, which is at most 2^63 - 2, every call of
    -- `Do` ends with more than `m` units of fuel, in every cache mode, with or without caches and
    -- deduplication: it returns, meets a fault, or is left to wait for the call of another request. It
    -- executes the middleware and the transport at most `m + 1` times, a conditional request included,
    -- in any measure of the world that an execution raises by at most one and the clock, the random
    -- numbers, the sleeping, the request ids and the cache provider leave as it is.
    pub do_request-finishes :
        (fuel : ℕ) (req : Request) (s : S)
        → m < fuel
        → BoundedBy (suc (sent s.base.world + m)) (do_request f env cache provider r fuel req s)
    unfolding do_request enter
    do_request-finishes fuel req s enough =
        let (start, w1) = env.now s.base.world in
        let (id, w2) = r.request_id w1 in
        let begin = request_start req.method (get_endpoint req) in
        let (call, begun) = enter f env cache provider r req s in
        by_dedup-Bounded fuel m
          (λ call k s.
            attempts-Bounded f env cache provider r sent sent-now sent-random sent-sleep
              sent-execute no_policy m maximum fits fuel call k s enough)
          begun.deduplication (r.dedup_condition req) call (sent s.base.world) begun
          (omega (
            arith,
            note-sent f env cache provider r sent begin
                (record s { base = record s.base { world = w2 } }),
            sent-request_id w1,
            sent-now s.base.world,
          ))
