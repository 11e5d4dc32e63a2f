-- ===== src/Dedup/Examples.antt =====
-- The theorems on the deduplication, at a concrete history.
use klayengo.Prelude.{◌≡◌, refl, none, some, List, [], ◌∷◌, false}
use klayengo.Prelude.Assoc.{lookup, insert}
use klayengo.Dedup.{get_or_create_by, get_or_create_entry, wait, new_deduplication_tracker}
use klayengo.Dedup.Owners.{System, Event, request, finish, timeout, step, run_from, start, Inv, own}
use klayengo.Dedup.Delivery.{Good, run_from-start-Good, request-finish}

abbrev history : List Event
history = request "a" ∷ request "b" ∷ request "a" ∷ finish "a" none none ∷ timeout "a" ∷ []

run_from-start-Good_example : Good (run_from (some start) history)
run_from-start-Good_example = run_from-start-Good history

-- The state after the first request for "a".
abbrev asked : System
asked = record {
  tracker = (get_or_create_entry new_deduplication_tracker "a").0;
  owners = ("a", 0) ∷ [];
}

asked-Inv : Inv asked
unfolding step run_from start new_deduplication_tracker get_or_create_entry get_or_create_by own
    insert lookup
asked-Inv = run_from-start-Good (request "a" ∷ [])

request-finish_example :
    (t : System) × ((get_or_create_entry asked.tracker "a").1 ≡ 0)
    × ((get_or_create_entry asked.tracker "a").2 ≡ false)
    × (step asked (finish "a" none none) ≡ some t)
    × (wait t.tracker 0 ≡ some (none, none))
unfolding lookup
request-finish_example = request-finish asked "a" 0 none none asked-Inv refl
