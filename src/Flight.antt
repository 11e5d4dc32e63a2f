-- ===== src/Flight.antt =====
-- The single flight: `Group` of internal/singleflight/singleflight.go, and the fallback of
-- `singleFlightDo` in client.go, which keeps its calls in the same way. Calls are shared by pointer
-- and stand in a heap; a goroutine that will clean up stands as the key and the call that it holds.
pub mod Runs
pub mod Delivery
mod Examples
use klayengo.Prelude.{
  ℕ, ◌+◌, Bool, true, false, ◌&&◌, ◌||◌, if◌then◌else◌, String, Option, none, some, List, [], ◌∷◌,
  ◌==◌ as nat_eq,
}
use text.Mathlib.Text.{◌==◌}
use klayengo.Prelude.Assoc.{lookup, insert, delete}

-- `call`; the zero values of `val` and `err` are `none`.
pub record FlightCall (A : Type 0) : Type 0 where
  pub result : Option A
  pub done : Bool

pub record Group (A : Type 0) : Type 0 where
  pub calls : List (String × ℕ)
  pub heap : ℕ → FlightCall A
  pub next : ℕ
  pub cleanups : List (String × ℕ)

-- The caller with the pointer runs the function, waits for another caller, or is told that another
-- caller is in progress.
pub data Ticket : Type 0 where
  runs waits : ℕ → Ticket
  in_progress : Ticket

module _ {A : Type 0} where
  abbrev pub open_call : FlightCall A
  open_call = record { result = none; done = false }

  pub new_group : Group A
  new_group = record { calls = []; heap = λ p. open_call; next = 0; cleanups = [] }

  write : (ℕ → FlightCall A) → ℕ → FlightCall A → ℕ → FlightCall A
  write heap p c q = if nat_eq q p then c else heap q

  -- The part of `Do` and `TryDo` that makes a call.
  pub register : Group A → String → Group A
  unfolding write insert
  register g key = record g {
    calls = insert key g.next g.calls;
    heap = write g.heap g.next open_call;
    next = g.next + 1;
  }

  begin_by : Option ℕ → Group A → String → Group A × Ticket
  unfolding register
  begin_by (some p) g key = (g, waits p)
  begin_by none g key = (register g key, runs g.next)

  -- `Do` up to the call of the function, or up to the wait.
  unfoldable pub begin : Group A → String → Group A × Ticket
  unfolding begin_by lookup
  begin g key = begin_by (lookup key g.calls) g key

  try_begin_by : Option ℕ → Group A → String → Group A × Ticket
  unfolding register
  try_begin_by (some p) g key = (g, in_progress)
  try_begin_by none g key = (register g key, runs g.next)

  -- `TryDo` up to the call of the function.
  unfoldable pub try_begin : Group A → String → Group A × Ticket
  unfolding try_begin_by lookup
  try_begin g key = try_begin_by (lookup key g.calls) g key

  -- `Do` and `TryDo` after the function has returned; the goroutine for the cleaning starts.
  unfoldable pub finish : Group A → String → ℕ → A → Group A
  unfolding write
  finish g key p result = record g {
    heap = write g.heap p (record { result = some result; done = true });
    cleanups = (key, p) ∷ g.cleanups;
  }

  -- What a waiter gets; `none` while it waits.
  unfoldable pub wait : Group A → ℕ → Option A
  wait g p = if (g.heap p).done then (g.heap p).result else none

  -- The goroutine's end: the call is deleted if it is still the one that the map holds.
  unfoldable pub clean_up : Group A → String → ℕ → Group A
  unfolding lookup delete
  clean_up g key p = elim (lookup key g.calls) [
    | none ↦ g
    | some q ↦ if nat_eq q p then record g { calls = delete key g.calls } else g
  ]

  -- The same in the fallback, which does not compare.
  unfoldable pub clean_up_fallback : Group A → String → Group A
  unfolding delete
  clean_up_fallback g key = record g { calls = delete key g.calls }

  unfoldable pub forget_key : Group A → String → Group A
  unfolding delete
  forget_key g key = record g { calls = delete key g.calls }

-- The goroutines that are left after the one for `key` and `p` has ended.
pub remove_cleanup : String → ℕ → List (String × ℕ) → List (String × ℕ)
remove_cleanup key p [] = []
remove_cleanup key p ((k, q) ∷ rest) =
    if k == key && nat_eq q p then rest else (k, q) ∷ remove_cleanup key p rest

pub has_cleanup : String → ℕ → List (String × ℕ) → Bool
has_cleanup key p [] = false
has_cleanup key p ((k, q) ∷ rest) = k == key && nat_eq q p || has_cleanup key p rest
