-- ===== src/Client/Requests/Bounded.antt =====
-- What a part of `Do` of client.go sends: the attempts send a bounded number of requests, and the
-- metrics send nothing.
use klayengo.Prelude.{
  ℕ, suc, ◌+◌, ◌≤◌, ◌<◌, ◌≡◌, ◌∙◌, Bool, true, false, if◌then◌else◌, Option, none, arith,
}
use klayengo.Prelude.Int.{ℤ, pos}
use klayengo.Prelude.Int64.{saturating_sub64}
use klayengo.Http.{Request, Response}
use klayengo.Errors.{Error}
use klayengo.Backoff.{Float}
use klayengo.Provider.{Cache}
use klayengo.Client.{
  Env, Metric, Call, Outcome, State, get_endpoint, request_end, request_done, record_metric,
  execute_middleware, returned, fault, out_of_fuel,
}
use klayengo.Client.Attempts.{do_with_retry}
use klayengo.Client.Attempts.Fuel.{do_with_retry-finishes}
use klayengo.Client.Attempts.Fuel
use klayengo.Client.Requests.{
  CacheProvider, Reply, replied, crashed, no_fuel, waiting, Rules, ClientState, Reached, note,
  note_end, reply_of, attempts, and_then,
}

abbrev pub is_no_fuel : Reply → Bool
is_no_fuel no_fuel = true
is_no_fuel (replied resp err) = false
is_no_fuel crashed = false
is_no_fuel waiting = false

module _ (f : Float) (env : Env f) (cache : Cache) (provider : CacheProvider f env)
    (r : Rules f env cache provider) (sent : env.World → ℕ) where
  abbrev S : Type 0
  S = ClientState f env cache provider

  -- The fuel is enough, and the count is at most `k` in the end.
  abbrev pub Bounded : ℕ → Reached f env cache provider → Type 0
  Bounded k x = (is_no_fuel x.0 ≡ false) × (sent x.1.base.world ≤ k)

  pub if-Bounded :
      (b : Bool) (k : ℕ) (x y : Reached f env cache provider)
      → Bounded k x
      → Bounded k y
      → Bounded k (if b then x else y)
  if-Bounded true k x y p q = p
  if-Bounded false k x y p q = q

  pub later-Bounded :
      (k n : ℕ) (x : Reached f env cache provider) → Bounded k x → k ≤ n → Bounded n x
  later-Bounded k n x b h = (b.0, omega (arith, b.1, h))

  pub and_then-Bounded :
      (k : ℕ) (a : Reached f env cache provider)
      (next : Option Response → Option Error → S → Reached f env cache provider)
      → Bounded k a
      → ((resp : Option Response) (err : Option Error) (s : S)
          → sent s.base.world ≤ k
          → Bounded k (next resp err s))
      → Bounded k (and_then f env cache provider a next)
  and_then-Bounded k (replied resp err, s) next b h = h resp err s b.1
  and_then-Bounded k (crashed, s) next b h = b
  and_then-Bounded k (no_fuel, s) next b h = b
  and_then-Bounded k (waiting, s) next b h = b

  pub note-sent :
      (m : Metric) (s : S) → sent (note f env cache provider r m s).base.world ≡ sent s.base.world
  unfolding note record_metric
  note-sent m s = ground arith

  module _ (sent-now : (w : env.World) → sent (env.now w).1 ≡ sent w) where
    pub note_end-sent :
        (call : Call f env) (status : ℤ) (s : S)
        → sent (note_end f env cache provider r call status s).base.world ≡ sent s.base.world
    unfolding note_end
    note_end-sent call status s =
        let ended =
          note f env cache provider r (request_end call.req.method (get_endpoint call.req)) s in
        let (t, w) = env.now ended.base.world in
        note-sent
          (request_done call.req.method (get_endpoint call.req) status
            (saturating_sub64 t call.start_time))
          (record ended { base = record ended.base { world = w } })
        ∙ sent-now ended.base.world
        ∙ note-sent (request_end call.req.method (get_endpoint call.req)) s

    module _ (sent-random : (w : env.World) → sent (env.random w).1 ≡ sent w)
        (sent-sleep : (d : ℤ) (w : env.World) → sent (env.sleep d w) ≡ sent w)
        (sent-execute : (req : Request) (w : env.World)
          → sent (execute_middleware f env r.config.middleware req w).1 ≤ suc (sent w))
        (no_policy : r.config.retry_policy ≡ none) (m : ℕ) (maximum : r.config.max_retries ≡ pos m)
        (fits : m < 9223372036854775807) where
      by_outcome :
          (call : Call f env) (k : ℕ) (s : S) (out : Outcome f env × State f env)
          → Fuel.Bounded f env r.config call sent k out
          → Bounded k (reply_of f env cache provider out.0, record s { base = out.1 })
      by_outcome call k s (returned resp err, base) b = b
      by_outcome call k s (fault, base) b = b
      by_outcome call k s (out_of_fuel, base) b = absurd (cc (b.0))

      pub attempts-Bounded :
          (fuel : ℕ) (call : Call f env) (k : ℕ) (s : S)
          → m < fuel
          → sent s.base.world ≤ k
          → Bounded (suc (k + m)) (attempts f env cache provider r.config fuel call s)
      unfolding attempts
      attempts-Bounded fuel call k s enough below =
          let b =
            do_with_retry-finishes f env r.config call sent sent-now sent-random sent-sleep
              (sent-execute call.req) no_policy m maximum fits fuel 0 s.base (omega arith)
              (omega (arith, enough)) in
          by_outcome call (suc (k + m)) s (do_with_retry f env r.config call fuel (pos 0) s.base)
            (b.0, omega (arith, b.1, below))
