-- ===== src/Dedup/Delivery.antt =====
-- Every history of the deduplication runs without a fault and delivers the owner's result.
use klayengo.Prelude.{
  ℕ, ◌≡◌, refl, sym, subst, inl, inr, false, String, Option, none, some, List, [], ◌∷◌, arith,
  Option-cases, Bool-cases,
}
use klayengo.Prelude.Assoc.{lookup}
use klayengo.Http.{Response}
use klayengo.Errors.{Error}
use klayengo.Dedup.{
  new_deduplication_tracker, update, get_or_create_by, get_or_create_entry, has_timer, remove_timer,
  expire, wait,
}
use klayengo.Dedup.Owners.{
  System, Event, request, finish, timeout, own, step_finish, step, run_from, start, Inv,
}
use klayengo.Dedup.Owners.Keeps.{
  join-Inv, create-Inv, finished, finish-Inv, finish-step, expire-Inv,
}

-- An event that does not fault, with a state that keeps the invariant.
abbrev pub Good : Option System → Type 0
Good none = ⊥
Good (some s) = Inv s

request-Good : (s : System) (key : String) → Inv s → Good (step s (request key))
unfolding step get_or_create_entry get_or_create_by own
request-Good s key v = elim (Option-cases (lookup key s.tracker.entries)) [
  | inl h ↦ rw h (create-Inv s v key h)
  | inr (p, h) ↦ rw h (join-Inv s v key p)
]

finish_nothing :
    (s : System) (key : String) (r : Option Response) (e : Option Error)
    → lookup key s.owners ≡ none
    → step s (finish key r e) ≡ some s
unfolding step step_finish
finish_nothing s key r e h = ground arith

finish-Good :
    (s : System) (key : String) (r : Option Response) (e : Option Error)
    → Inv s
    → Good (step s (finish key r e))
finish-Good s key r e v = elim (Option-cases (lookup key s.owners)) [
  | inl h ↦ subst Good (sym (finish_nothing s key r e h)) v
  | inr (p, h) ↦ subst Good (sym (finish-step s v key p h r e)) (finish-Inv s v key p h r e)
]

timeout-Good : (s : System) (key : String) → Inv s → Good (step s (timeout key))
unfolding step expire
timeout-Good s key v = elim (Bool-cases (has_timer key s.tracker.timers)) [
  | inl h ↦ rw h (expire-Inv s v key h)
  | inr h ↦ rw h v
]

step-Good : (s : System) (x : Event) → Inv s → Good (step s x)
step-Good s (request key) v = request-Good s key v
step-Good s (finish key r e) v = finish-Good s key r e v
step-Good s (timeout key) v = timeout-Good s key v

run_from-Good : (o : Option System) (xs : List Event) → Good o → Good (run_from o xs)
unfolding run_from
run_from-Good o [] v = v
run_from-Good none (x ∷ xs) v = absurd v
run_from-Good (some s) (x ∷ xs) v = run_from-Good (step s x) xs (step-Good s x v)

start-Inv : Inv start
unfolding start new_deduplication_tracker lookup has_timer remove_timer
start-Inv = record {
  numbered = λ k p h. cc;
  apart = λ k j p h g. cc;
  registered = λ k p h. cc;
  undone = λ k p h. cc;
  pending = λ k h. cc;
  once = λ k. refl;
  quiet = λ k h. cc;
}

-- Whatever requests come in, owners complete and timers fire, in whatever order from an empty
-- tracker, no completion closes a channel twice, and in the state reached each owner's entry is the
-- one registered for its key and still open, and has no timer.
pub run_from-start-Good : (xs : List Event) → Good (run_from (some start) xs)
run_from-start-Good xs = run_from-Good (some start) xs start-Inv

-- In a state that keeps the invariant, while a request owns the entry `p` of a key, any further
-- request for the key is given `p` and does not become an owner; when the owner completes, there is
-- no fault and whoever waits for `p` gets the owner's response and error.
pub request-finish :
    (s : System) (key : String) (p : ℕ) (r : Option Response) (e : Option Error)
    → Inv s
    → lookup key s.owners ≡ some p
    → (t : System) × ((get_or_create_entry s.tracker key).1 ≡ p)
      × ((get_or_create_entry s.tracker key).2 ≡ false)
      × (step s (finish key r e) ≡ some t)
      × (wait t.tracker p ≡ some (r, e))
unfolding get_or_create_entry get_or_create_by wait update
request-finish s key p r e v h =
    let here = v.registered key p h in
    (
      finished s v key p r e,
      ground (arith, here),
      ground (arith, here),
      finish-step s v key p h r e,
      ground arith,
    )
