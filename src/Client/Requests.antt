-- ===== src/Client/Requests.antt =====
-- `Do` of client.go, with what stands in front of the attempts: its settings, its state and the
-- steps on it. A call of `Do` runs by itself, from a state that other calls have left.
pub mod Bounded
mod Hits
mod Fetch
pub mod Whole
use klayengo.Prelude.{ℕ, Bool, true, false, String, Option, none, some, List}
use klayengo.Prelude.Int.{ℤ, pos}
use klayengo.Prelude.Int64.{saturating_sub64}
use klayengo.Http.{Request, Response}
use klayengo.Errors.{Error}
use klayengo.Backoff.{Float}
use klayengo.Dedup.{DeduplicationTracker}
use klayengo.Flight.{Group}
use klayengo.Provider.{CacheMode, Cache}
use klayengo.Client.{
  Exchange, Env, Metric, request_end, request_done, get_endpoint, Config, State, Outcome, returned,
  fault, out_of_fuel, record_metric, Call,
}
use klayengo.Client.Attempts.{do_with_retry}

-- The interface `CacheProvider`. `Set` may replace the response's body, so it gives the response
-- back; the methods read the clock themselves.
pub record CacheProvider (f : Float) (env : Env f) : Type 1 where
  pub Entries : Type 0
  pub get : Entries → String → env.World → (Entries × Option Response) × env.World
  pub set : Entries → String → Response → ℤ → env.World → (Entries × Response) × env.World
  pub invalidate : Entries → String → Entries

-- How a call of `Do` ends: it returns, stops the program, or waits for a call that is not done.
pub data Reply : Type 0 where
  replied : Option Response → Option Error → Reply
  crashed no_fuel waiting : Reply

module _ (f : Float) (env : Env f) (cache : Cache) (provider : CacheProvider f env) where
  -- The settings that `Do` reads. `cache_size` counts the entries of an in-memory cache, and is
  -- `none` for another one; `format` is `time.Time.Format(time.RFC1123)`.
  pub record Rules : Type 0 where
    pub config : Config f env
    pub request_id : env.World → String × env.World
    pub dedup_condition : Request → Bool
    pub dedup_key_func : Request → String
    pub cache_condition : Request → Bool
    pub cache_key_func : Request → String
    pub cache_mode : CacheMode
    pub cache_ttl : ℤ
    pub cache_size : cache.State → Option ℤ
    pub format : ℤ → String

  -- What `Do` changes; a nil pointer is `none`. `revalidations` are the goroutines that
  -- `handleHTTPSemanticsCacheHit` has started, by their keys.
  pub record ClientState : Type 0 where
    pub base : State f env
    pub deduplication : Option DeduplicationTracker
    pub entries : Option cache.State
    pub provided : Option provider.Entries
    pub flights : Group Exchange
    pub revalidations : List (String × Request)

  abbrev pub Reached : Type 0
  Reached = Reply × ClientState

  module _ (r : Rules) where
    pub note : Metric → ClientState → ClientState
    unfolding record_metric
    note m s = record s { base = record_metric f env r.config m s.base }

    -- `RecordRequestEnd` and `RecordRequest`, in the order of the calls.
    pub note_end : Call f env → ℤ → ClientState → ClientState
    unfolding note
    note_end call status s =
        let ended = note (request_end call.req.method (get_endpoint call.req)) s in
        let (t, w) = env.now ended.base.world in
        note
          (request_done call.req.method (get_endpoint call.req) status
            (saturating_sub64 t call.start_time))
          (record ended { base = record ended.base { world = w } })

  abbrev pub reply_of : Outcome f env → Reply
  reply_of (returned resp err) = replied resp err
  reply_of fault = crashed
  reply_of out_of_fuel = no_fuel

  -- `doWithRetry` from the first attempt on.
  pub attempts : Config f env → ℕ → Call f env → ClientState → Reached
  unfolding do_with_retry
  attempts c fuel call s =
      let (o, base) = do_with_retry f env c call fuel (pos 0) s.base in
      (reply_of o, record s { base = base })

  -- What is done with a reply, unless the call has not returned.
  abbrev pub and_then : Reached → (Option Response → Option Error → ClientState → Reached) → Reached
  and_then (replied resp err, s) next = next resp err s
  and_then (crashed, s) next = (crashed, s)
  and_then (no_fuel, s) next = (no_fuel, s)
  and_then (waiting, s) next = (waiting, s)
