-- ===== src/Flight/Runs.antt =====
-- Histories of calls of the single flight in which `ForgetKey`, which the client never calls, does
-- not occur: which callers run their function.
pub mod Keeps
use klayengo.Prelude.{
  ℕ, ◌+◌, ◌<◌, ◌≡◌, ◌≢◌, Bool, true, false, if◌then◌else◌, String, Option, none, some, List, [],
  ◌∷◌,
}
use klayengo.Prelude.Assoc.{lookup, insert, delete}
use klayengo.Flight.{
  Group, Ticket, runs, waits, in_progress, new_group, begin, try_begin, finish, clean_up,
  clean_up_fallback, remove_cleanup, has_cleanup,
}

-- The group and the callers that run their function, by their keys.
pub record System (A : Type 0) : Type 0 where
  pub group : Group A
  pub running : List (String × ℕ)

-- `Do` or `TryDo` is called; the function that runs for a key returns; a goroutine cleans up, as
-- the group does or as the fallback does.
pub data Event (A : Type 0) : Type 0 where
  call try : String → Event A
  result : String → A → Event A
  cleaning : Bool → String → ℕ → Event A

module _ {A : Type 0} where
  unfoldable pub started : Group A → Ticket → String → List (String × ℕ) → Option (System A)
  unfolding lookup insert
  started g (runs p) key running = elim (lookup key running) [
    | none ↦ some (record { group = g; running = insert key p running })
    | some q ↦ none
  ]
  started g (waits p) key running = some (record { group = g; running = running })
  started g in_progress key running = some (record { group = g; running = running })

  unfoldable pub cleaned : Bool → Group A → String → ℕ → Group A
  cleaned true g key p = clean_up g key p
  cleaned false g key p = clean_up_fallback g key

  -- `none`: a function starts for a key while another runs for it. A result without a running
  -- function and the end of a goroutine that was not started do nothing.
  unfoldable pub step : System A → Event A → Option (System A)
  unfolding started cleaned has_cleanup remove_cleanup
  step s (call key) = let (g, ticket) = begin s.group key in started g ticket key s.running
  step s (try key) = let (g, ticket) = try_begin s.group key in started g ticket key s.running
  step s (result key r) = elim (lookup key s.running) [
    | none ↦ some s
    | some p ↦ some (record { group = finish s.group key p r; running = delete key s.running })
  ]
  step s (cleaning checked key p) =
      if has_cleanup key p s.group.cleanups
      then some (record s {
        group =
            cleaned checked (record s.group { cleanups = remove_cleanup key p s.group.cleanups })
              key p;
      })
      else some s

  abbrev pub step_from : Option (System A) → Event A → Option (System A)
  step_from none e = none
  step_from (some s) e = step s e

  unfoldable pub run_from : Option (System A) → List (Event A) → Option (System A)
  run_from o [] = o
  run_from o (e ∷ es) = run_from (step_from o e) es

  unfoldable pub start : System A
  unfolding new_group
  start = record { group = new_group; running = [] }

  -- A running function is that of the registered call, which is not done; a goroutine will clean up
  -- the registered call, which is done, and there is one for it at most.
  pub record Inv (s : System A) : Type 0 where
    pub numbered : (k : String) (p : ℕ) → lookup k s.group.calls ≡ some p → p < s.group.next
    pub apart :
        (k j : String) (p : ℕ)
        → lookup k s.group.calls ≡ some p
        → lookup j s.group.calls ≡ some p
        → k ≡ j
    pub registered :
        (k : String) (p : ℕ) → lookup k s.running ≡ some p → lookup k s.group.calls ≡ some p
    pub undone : (k : String) (p : ℕ) → lookup k s.running ≡ some p → (s.group.heap p).done ≡ false
    pub pending :
        (k : String) (p : ℕ)
        → has_cleanup k p s.group.cleanups ≡ true
        → lookup k s.group.calls ≡ some p
    pub ended :
        (k : String) (p : ℕ)
        → has_cleanup k p s.group.cleanups ≡ true
        → (s.group.heap p).done ≡ true
    pub once : (k : String) (p : ℕ) → has_cleanup k p (remove_cleanup k p s.group.cleanups) ≡ false
