-- ===== src/Client/Attempts/Errors.antt =====
-- The errors that `doWithRetry` of client.go returns.
use klayengo.Prelude.{ℕ, zero, suc, ◌≡◌, refl, ap, subst, ◌∙◌, Option, none, some, arith}
use klayengo.Prelude.Int.{ℤ, pos}
use klayengo.Prelude.Int64.{add64}
use klayengo.Http.{Response}
use klayengo.Errors.{Error}
use klayengo.Backoff.{Float}
use klayengo.Client.{
  Env, Config, State, Outcome, returned, Step, stop, again, Call, execute_middleware,
}
use klayengo.Client.Attempts.{attempt_once, continue_by, do_with_retry}
use klayengo.Client.Attempts.Ends.{Reported, FineBy, attempt_once-Fine}

module _ (f : Float) (env : Env f) (c : Config f env) (call : Call f env) where
  -- The attempts that come before the attempt with the number `last`, which starts in the state `s'`.
  pub data Leads (last : ℤ) (s' : State f env) : ℤ → State f env → Type 0 where
    here : Leads last s' last s'
    next :
        (attempt : ℤ) (s t : State f env)
        → attempt_once f env c call attempt s ≡ again t
        → Leads last s' (add64 attempt (pos 1)) t
        → Leads last s' attempt s

  -- The attempt that ends the attempts from `s` on, with the result `o`.
  pub record Last (attempt : ℤ) (s : State f env) (o : Outcome f env) : Type 0 where
    pub number : ℤ
    pub start : State f env
    pub end : State f env
    pub leads : Leads number start attempt s
    pub stops : attempt_once f env c call number start ≡ stop o end

  -- The exchange of an attempt that starts in the state `s` gives the error: the clock is read twice before
  -- it, for the limiter and for the breaker.
  abbrev pub Gives : State f env → Error → Type 0
  Gives s err =
      (resp : Option Response) × ((execute_middleware f env c.middleware call.req
          (env.now (env.now s.world).1).1).0
        ≡ (resp, some err))

  continue_by-Last :
      (n : ℕ) (attempt : ℤ) (s : State f env) (r : Option Response) (e : Option Error)
      (x : Step f env)
      → attempt_once f env c call attempt s ≡ x
      → (continue_by f env c call
          (λ s'. do_with_retry f env c call n (add64 attempt (pos 1)) s')
          x).0
        ≡ returned r e
      → ((t : State f env)
          → (do_with_retry f env c call n (add64 attempt (pos 1)) t).0 ≡ returned r e
          → Last (add64 attempt (pos 1)) t (returned r e))
      → Last attempt s (returned r e)
  unfolding continue_by
  continue_by-Last n attempt s r e (stop o t) once h rest = record {
    number = attempt;
    start = s;
    end = t;
    leads = here;
    stops = once ∙ ap (λ o. stop o t) h;
  }
  continue_by-Last n attempt s r e (again t) once h rest =
      let l = rest t h in
      record {
        number = l.number;
        start = l.start;
        end = l.end;
        leads = next attempt s t once l.leads;
        stops = l.stops;
      }

  do_with_retry-Last :
      (n : ℕ) (attempt : ℤ) (s : State f env) (r : Option Response) (e : Option Error)
      → (do_with_retry f env c call n attempt s).0 ≡ returned r e
      → Last attempt s (returned r e)
  unfolding do_with_retry
  do_with_retry-Last zero attempt s r e h = absurd (cc (h))
  do_with_retry-Last (suc n) attempt s r e h =
      continue_by-Last n attempt s r e (attempt_once f env c call attempt s) refl h
        (λ t. do_with_retry-Last n (add64 attempt (pos 1)) t r e)

  -- Every error that the attempts return, with any transport, middleware, retry policy and condition, comes
  -- from the last of the attempts made and without a response. It is a client error with the call's request
  -- id and method, of one of four types: network with the error that the exchange of that last attempt gave
  -- as its cause, or rate limit, circuit open or retry budget exceeded with the sentinel of that type.
  pub do_with_retry-Reported :
      (n : ℕ) (attempt : ℤ) (s : State f env) (r : Option Response) (e : Error)
      → (do_with_retry f env c call n attempt s).0 ≡ returned r (some e)
      → (r ≡ none)
        × ((last : Last attempt s (returned r (some e))) × Reported
              (Gives last.start)
              call.request_id
              call.req
              e)
  do_with_retry-Reported n attempt s r e h =
      let last = do_with_retry-Last n attempt s r (some e) h in
      let fine =
        attempt_once-Fine f env c call (Gives last.start) (λ w. 0) (λ w. refl) (λ w. refl)
          (λ d w. refl) (λ w. omega arith) (λ policy p resp err a w. refl) last.number last.start
          (λ resp err gave. (resp, gave)) in
      let (end, in_time, sent) =
        subst (FineBy f env c call (Gives last.start) (λ w. 0) 1) last.stops fine in
      (end.0, (last, end.1))
