-- ===== src/Flight/Examples.antt =====
-- The theorems on the single flight, at a concrete history.
use klayengo.Prelude.{ℕ, ◌≡◌, refl, none, some, List, [], ◌∷◌, true}
use klayengo.Prelude.Assoc.{lookup, insert}
use klayengo.Flight.{waits, in_progress, new_group, begin, try_begin, register, finish, wait}
use klayengo.Flight.Runs.{
  System, Event, call, try, result, cleaning, started, step, run_from, start, Inv,
}
use klayengo.Flight.Delivery.{Alone, run_from-start-Alone, begin-finish}

-- The function for "a" returns 7, "b" is called, and the call for "a" is cleaned up.
abbrev history : List (Event ℕ)
history = call "a" ∷ call "a" ∷ result "a" 7 ∷ try "b" ∷ cleaning true "a" 0 ∷ call "a" ∷ []

run_from-start-Alone_example : Alone (run_from (some start) history)
run_from-start-Alone_example = run_from-start-Alone history

abbrev asked : System ℕ
asked = record { group = register new_group "a"; running = ("a", 0) ∷ [] }

asked-Inv : Inv asked
unfolding step run_from start begin started new_group insert lookup
asked-Inv = run_from-start-Alone (call "a" ∷ [])

begin-finish_example :
    (begin asked.group "a" ≡ (asked.group, waits 0))
    × (try_begin asked.group "a" ≡ (asked.group, in_progress))
    × (wait asked.group 0 ≡ none)
    × (wait (finish asked.group "a" 0 7) 0 ≡ some 7)
unfolding lookup
begin-finish_example = begin-finish asked "a" 0 7 asked-Inv refl
