-- ===== src/Client/Requests/Whole.antt =====
-- `Do` of client.go: the deduplication, the caches, the attempts, the storing and the completion.
mod Hit
pub mod Sharing
pub mod Completion
pub mod Storing
pub mod RoundTrip
pub mod Memory
pub mod Bounded
mod Examples
use klayengo.Prelude.{ℕ, Bool, true, false, ◌&&◌, ◌||◌, not, String, Option, none, some, is_some}
use klayengo.Prelude.Int.{ℤ, pos}
use klayengo.Prelude.Int64.{saturating_sub64}
use klayengo.Http.{Request, Response}
use klayengo.Errors.{Error}
use klayengo.Backoff.{Float}
use klayengo.Dedup.{DeduplicationTracker, get_or_create_entry, complete, wait}
use klayengo.Provider.{Cache}
use klayengo.Client.{
  Exchange, Env, Call, get_endpoint, request_start, request_done, cache_miss, deduplication_hit,
}
use klayengo.Client.Requests.{
  CacheProvider, replied, crashed, waiting, Rules, ClientState, Reached, note, note_end, and_then,
}
use klayengo.Client.Requests.Hits.{look_up}
use klayengo.Client.Requests.Fetch.{fetch, in_flight, store}

module _ (f : Float) (env : Env f) (cache : Cache) (provider : CacheProvider f env)
    (r : Rules f env cache provider) where
  abbrev S : Type 0
  S = ClientState f env cache provider

  abbrev status_of : Option Response → ℤ
  status_of none = pos 0
  status_of (some resp) = resp.status_code

  -- `Complete`, for the owner of an entry.
  pub complete_owned :
      Bool → Request → Option Response → Option Error → S → Reached f env cache provider
  unfolding complete
  complete_owned false req resp err s = (replied resp err, s)
  complete_owned true req resp err s = elim s.deduplication [
    | none ↦ (crashed, s)
    | some t ↦ elim (complete t (r.dedup_key_func req) resp err) [
      | none ↦ (crashed, s)
      | some t' ↦ (replied resp err, record s { deduplication = some t' })
    ]
  ]

  -- After the attempts: the metrics, the storing, the completion.
  pub wind_up :
      Bool → Bool → Call f env → Option Response → Option Error → S → Reached f env cache provider
  unfolding note_end store complete_owned
  wind_up owned enabled call resp err s =
      and_then f env cache provider
        (store f env cache provider r
          (enabled && not (in_flight f env cache provider r enabled r.cache_mode)) call.req resp err
          (note_end f env cache provider r call (status_of resp) s))
        (complete_owned owned call.req)

  -- The part after a miss, or without a cache.
  pub proceed : Bool → Bool → ℕ → Call f env → S → Reached f env cache provider
  unfolding fetch wind_up
  proceed owned enabled fuel call s =
      and_then f env cache provider
        (fetch f env cache provider r (in_flight f env cache provider r enabled r.cache_mode) fuel
          call s)
        (wind_up owned enabled call)

  -- A hit ends `Do`, also for the owner of an entry.
  pub or_miss :
      Bool
      → ℕ
      → Call f env
      → S × Option (Reached f env cache provider)
      → Reached f env cache provider
  unfolding proceed note
  or_miss owned fuel call (s, some reached) = reached
  or_miss owned fuel call (s, none) =
      proceed owned true fuel call
        (note f env cache provider r (cache_miss call.req.method (get_endpoint call.req)) s)

  pub by_cache : Bool → Bool → ℕ → Call f env → S → Reached f env cache provider
  unfolding or_miss look_up
  by_cache false owned fuel call s = proceed owned false fuel call s
  by_cache true owned fuel call s =
      or_miss owned fuel call
        (look_up f env cache provider r fuel call (r.cache_key_func call.req) s)

  -- `cacheEnabled`.
  abbrev is_cache_enabled : Request → S → Bool
  is_cache_enabled req s = (is_some s.entries || is_some s.provided) && r.cache_condition req

  -- A waiter's end, once the entry is done.
  pub shared : Call f env → Option Exchange → S → Reached f env cache provider
  unfolding note
  shared call none s = (waiting, s)
  shared call (some (resp, err)) s =
      let (t, w) = env.now s.base.world in
      let read = record s { base = record s.base { world = w } } in
      let done =
        request_done call.req.method (get_endpoint call.req) (status_of resp)
          (saturating_sub64 t call.start_time) in
      (
        replied resp err,
        note f env cache provider r (deduplication_hit call.req.method (get_endpoint call.req))
            (note f env cache provider r done read),
      )

  pub by_owner : Bool → DeduplicationTracker → ℕ → ℕ → Call f env → S → Reached f env cache provider
  unfolding by_cache shared wait
  by_owner true t p fuel call s = by_cache (is_cache_enabled call.req s) true fuel call s
  by_owner false t p fuel call s = shared call (wait t p) s

  -- `dedupEnabled` is true for a tracker under a condition that holds.
  pub by_dedup :
      Option DeduplicationTracker → Bool → ℕ → Call f env → S → Reached f env cache provider
  unfolding by_owner get_or_create_entry
  by_dedup (some t) true fuel call s =
      let (t', p, owned) = get_or_create_entry t (r.dedup_key_func call.req) in
      by_owner owned t' p fuel call (record s { deduplication = some t' })
  by_dedup (some t) false fuel call s = by_cache (is_cache_enabled call.req s) false fuel call s
  by_dedup none wanted fuel call s = by_cache (is_cache_enabled call.req s) false fuel call s

  -- The call, and the state in which it is counted as begun.
  pub enter : Request → S → Call f env × S
  unfolding note
  enter req s =
      let (start, w1) = env.now s.base.world in
      let (request_id, w2) = r.request_id w1 in
      (
        record { req = req; request_id = request_id; start_time = start },
        note f env cache provider r (request_start req.method (get_endpoint req))
            (record s { base = record s.base { world = w2 } }),
      )

  -- `Do`, with fuel for its attempts.
  unfoldable pub do_request : ℕ → Request → S → Reached f env cache provider
  unfolding by_dedup enter
  do_request fuel req s =
      let (call, begun) = enter req s in
      by_dedup begun.deduplication (r.dedup_condition req) fuel call begun
