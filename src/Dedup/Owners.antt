-- ===== src/Dedup/Owners.antt =====
-- Owners and their entries: one request in flight for a key, and its result for all who wait.
pub mod Keeps
use text.Mathlib.Text.{◌==◌}
use text.Mathlib.TextEquality.{eq_iff}
use klayengo.Prelude.{
  ℕ, suc, ◌+◌, ◌<◌, ◌≡◌, refl, ◌≢◌, ◌∙◌, ap, inl, inr, Bool, true, false, if◌then◌else◌, String,
  Option, none, some, List, [], ◌∷◌, arith, Option-cases, Bool-cases,
}
use klayengo.Prelude.Assoc.{lookup, insert, delete, lookup-insert, lookup-delete}
use klayengo.Http.{Response}
use klayengo.Errors.{Error}
use klayengo.Dedup.{
  DeduplicationEntry, DeduplicationTracker, new_deduplication_tracker, update, joined, fresh_entry,
  get_or_create_by, get_or_create_entry, complete_by, complete, remove_timer, has_timer, expire,
  wait,
}

-- The tracker and the requests that own an entry and have not completed it, by their keys.
pub record System : Type 0 where
  pub tracker : DeduplicationTracker
  pub owners : List (String × ℕ)

-- A request comes in; the owner of a key's entry completes it; a timer fires.
pub data Event : Type 0 where
  request : String → Event
  finish : String → Option Response → Option Error → Event
  timeout : String → Event

unfoldable pub own : DeduplicationTracker × ℕ × Bool → String → List (String × ℕ) → System
own (t, p, false) key owners = record { tracker = t; owners = owners }
own (t, p, true) key owners = record { tracker = t; owners = insert key p owners }

-- `finish` for a key that no request owns does nothing. `none` is the fault of a double close.
unfoldable pub step_finish :
    Option ℕ → System → String → Option Response → Option Error → Option System
step_finish none s key r e = some s
step_finish (some p) s key r e = elim (complete s.tracker key r e) [
  | none ↦ none
  | some t ↦ some (record { tracker = t; owners = delete key s.owners })
]

unfoldable pub step : System → Event → Option System
unfolding own step_finish
step s (request key) = some (own (get_or_create_entry s.tracker key) key s.owners)
step s (finish key r e) = step_finish (lookup key s.owners) s key r e
step s (timeout key) = some (record s { tracker = expire s.tracker key })

-- After a fault nothing happens.
abbrev pub step_from : Option System → Event → Option System
step_from none e = none
step_from (some s) e = step s e

unfoldable pub run_from : Option System → List Event → Option System
run_from o [] = o
run_from o (e ∷ es) = run_from (step_from o e) es

unfoldable pub start : System
start = record { tracker = new_deduplication_tracker; owners = [] }

-- Entries are numbered apart; an owner's entry is registered, open and has no timer; a key has at
-- most one timer, and while it has one, an entry.
pub record Inv (s : System) : Type 0 where
  pub numbered : (k : String) (p : ℕ) → lookup k s.tracker.entries ≡ some p → p < s.tracker.next
  pub apart :
      (k j : String) (p : ℕ)
      → lookup k s.tracker.entries ≡ some p
      → lookup j s.tracker.entries ≡ some p
      → k ≡ j
  pub registered :
      (k : String) (p : ℕ) → lookup k s.owners ≡ some p → lookup k s.tracker.entries ≡ some p
  pub undone : (k : String) (p : ℕ) → lookup k s.owners ≡ some p → (s.tracker.heap p).done ≡ false
  pub pending :
      (k : String) → has_timer k s.tracker.timers ≡ true → lookup k s.tracker.entries ≢ none
  pub once : (k : String) → has_timer k (remove_timer k s.tracker.timers) ≡ false
  pub quiet : (k : String) → has_timer k s.tracker.timers ≡ true → lookup k s.owners ≡ none
