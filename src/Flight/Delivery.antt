-- ===== src/Flight/Delivery.antt =====
-- The single flight runs one function for a key at a time, and hands its result to those who wait.
use klayengo.Prelude.{
  ℕ, ◌≡◌, refl, sym, inl, inr, Bool, String, Option, none, some, List, [], ◌∷◌, arith, subst,
  Bool-cases, Option-cases,
}
use klayengo.Prelude.Assoc.{lookup}
use klayengo.Flight.{
  waits, in_progress, new_group, begin_by, begin, try_begin_by, try_begin, finish, write, wait,
  has_cleanup, remove_cleanup,
}
use klayengo.Flight.Runs.{
  System, Event, call, try, result, cleaning, started, step, run_from, start, Inv,
}
use klayengo.Flight.Runs.Keeps.{begun, returned, begin-Inv, return-Inv, cleaned-swept, sweep-Inv}

module _ {A : Type 0} where
  -- An event in which no second function starts, with a state that keeps the invariant.
  abbrev pub Alone : Option (System A) → Type 0
  Alone none = ⊥
  Alone (some s) = Inv s

  none_runs :
      (s : System A) (key : String)
      → Inv s
      → lookup key s.group.calls ≡ none
      → lookup key s.running ≡ none
  none_runs s key v absent = elim (Option-cases (lookup key s.running)) [
    | inl h ↦ h
    | inr (p, h) ↦ cc (v.registered key p h, absent)
  ]

  call-Alone : (s : System A) (key : String) → Inv s → Alone (step s (call key))
  unfolding step begin begin_by started
  call-Alone s key v = elim (Option-cases (lookup key s.group.calls)) [
    | inl h ↦
        let idle = none_runs s key v h in
        let e : step s (call key) ≡ some (begun s v key) = ground (arith, h, idle) in
        subst Alone (sym e) (begin-Inv s v key h)
    | inr (p, h) ↦ rw h v
  ]

  try-Alone : (s : System A) (key : String) → Inv s → Alone (step s (try key))
  unfolding step try_begin try_begin_by started
  try-Alone s key v = elim (Option-cases (lookup key s.group.calls)) [
    | inl h ↦
        let idle = none_runs s key v h in
        let e : step s (try key) ≡ some (begun s v key) = ground (arith, h, idle) in
        subst Alone (sym e) (begin-Inv s v key h)
    | inr (p, h) ↦ rw h v
  ]

  result-Alone : (s : System A) (key : String) (r : A) → Inv s → Alone (step s (result key r))
  unfolding step
  result-Alone s key r v = elim (Option-cases (lookup key s.running)) [
    | inl h ↦ let e : step s (result key r) ≡ some s = ground (arith, h) in subst Alone (sym e) v
    | inr (p, h) ↦
        let e : step s (result key r) ≡ some (returned s v key p r h) = ground (arith, h) in
        subst Alone (sym e) (return-Inv s v key p r h)
  ]

  cleaning-Alone :
      (s : System A) (checked : Bool) (key : String) (p : ℕ)
      → Inv s
      → Alone (step s (cleaning checked key p))
  unfolding step
  cleaning-Alone s checked key p v = elim (Bool-cases (has_cleanup key p s.group.cleanups)) [
    | inl h ↦ rw (h, cleaned-swept s v key p h checked) (sweep-Inv s v key p h)
    | inr h ↦ rw h v
  ]

  step-Alone : (s : System A) (e : Event A) → Inv s → Alone (step s e)
  step-Alone s (call key) v = call-Alone s key v
  step-Alone s (try key) v = try-Alone s key v
  step-Alone s (result key r) v = result-Alone s key r v
  step-Alone s (cleaning checked key p) v = cleaning-Alone s checked key p v

  run_from-Alone : (o : Option (System A)) (es : List (Event A)) → Alone o → Alone (run_from o es)
  unfolding run_from
  run_from-Alone o [] v = v
  run_from-Alone none (e ∷ es) v = absurd v
  run_from-Alone (some s) (e ∷ es) v = run_from-Alone (step s e) es (step-Alone s e v)

  start-Inv : Inv {A = A} start
  unfolding start new_group lookup has_cleanup remove_cleanup
  start-Inv = record {
    numbered = λ k p h. cc;
    apart = λ k j p h i. cc;
    registered = λ k p h. cc;
    undone = λ k p h. cc;
    pending = λ k p h. cc;
    ended = λ k p h. cc;
    once = λ k p. refl;
  }

  -- Whatever calls of `Do` and `TryDo` come in, functions return and goroutines clean up (as the
  -- group or as the fallback of the client does), in whatever order from an empty group and without
  -- `ForgetKey`, no function starts for a key while another one runs for it, and the state keeps
  -- the invariant: each running function is that of the registered call of its key, which is not
  -- done, and each goroutine that will clean up is the only one for its key's call, which is done.
  pub run_from-start-Alone : (es : List (Event A)) → Alone (run_from (some start) es)
  run_from-start-Alone es = run_from-Alone (some start) es start-Inv

  -- In a state that keeps the invariant, while a function runs for a key, `Do` for the key waits
  -- for its call and `TryDo` is refused, both without a change of the group; and once the function
  -- has returned, whoever waits for the call gets its result.
  pub begin-finish :
      (s : System A) (key : String) (p : ℕ) (r : A)
      → Inv s
      → lookup key s.running ≡ some p
      → (begin s.group key ≡ (s.group, waits p))
        × (try_begin s.group key ≡ (s.group, in_progress))
        × (wait s.group p ≡ none)
        × (wait (finish s.group key p r) p ≡ some r)
  unfolding begin begin_by try_begin try_begin_by wait finish write
  begin-finish s key p r v h = (
    ground (arith, v.registered key p h),
    ground (arith, v.registered key p h),
    ground (arith, v.undone key p h),
    ground arith,
  )
