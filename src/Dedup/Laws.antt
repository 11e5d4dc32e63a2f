-- ===== src/Dedup/Laws.antt =====
-- The calls of the tracker on an entry that is registered, and on a key without one.
use klayengo.Prelude.{ℕ, ◌+◌, ◌≡◌, refl, true, false, String, Option, none, some, ◌∷◌, arith}
use klayengo.Prelude.Assoc.{lookup, insert, lookup-insert}
use text.Mathlib.TextPositions.{eq_refl}
use klayengo.Http.{Response}
use klayengo.Errors.{Error}
use klayengo.Dedup.{
  DeduplicationTracker, fresh_entry, joined, update, get_or_create_by, get_or_create_entry,
  complete_by, complete, wait,
}

module _ (t : DeduplicationTracker) (key : String) where
  pub joined_tracker : ℕ → DeduplicationTracker
  unfolding update joined
  joined_tracker p = record t { heap = update t.heap p (joined (t.heap p)) }

  pub created_tracker : DeduplicationTracker
  unfolding update
  created_tracker = record t {
    entries = insert key t.next t.entries;
    heap = update t.heap t.next fresh_entry;
    next = t.next + 1;
  }

  pub completed_tracker : ℕ → Option Response → Option Error → DeduplicationTracker
  unfolding update
  completed_tracker p r e = record t {
    heap = update t.heap p (record (t.heap p) { response = r; err = e; done = true });
    timers = key ∷ t.timers;
  }

  pub get_or_create_entry-registered :
      (p : ℕ)
      → lookup key t.entries ≡ some p
      → get_or_create_entry t key ≡ (joined_tracker p, p, false)
  unfolding get_or_create_entry get_or_create_by joined_tracker
  get_or_create_entry-registered p h = ground (arith, h)

  pub wait-joined_tracker : (p : ℕ) → wait (joined_tracker p) p ≡ wait t p
  unfolding joined_tracker wait update joined
  wait-joined_tracker p = ground arith

  pub get_or_create_entry-absent :
      lookup key t.entries ≡ none → get_or_create_entry t key ≡ (created_tracker, t.next, true)
  unfolding get_or_create_entry get_or_create_by created_tracker
  get_or_create_entry-absent h = ground (arith, h)

  pub created_tracker-lookup : lookup key created_tracker.entries ≡ some t.next
  unfolding created_tracker
  created_tracker-lookup = simp (lookup-insert, eq_refl)

  pub created_tracker-done : (created_tracker.heap t.next).done ≡ false
  unfolding created_tracker update
  created_tracker-done = ground arith

  pub wait-created_tracker : wait created_tracker t.next ≡ none
  unfolding wait
  wait-created_tracker = rw created_tracker-done refl

  pub created_tracker-timers : created_tracker.timers ≡ t.timers
  unfolding created_tracker
  created_tracker-timers = refl

  pub complete-registered :
      (p : ℕ) (r : Option Response) (e : Option Error)
      → lookup key t.entries ≡ some p
      → (t.heap p).done ≡ false
      → complete t key r e ≡ some (completed_tracker p r e)
  unfolding complete complete_by completed_tracker
  complete-registered p r e h d = ground (arith, h, d)

  pub completed_tracker-lookup :
      (p : ℕ) (r : Option Response) (e : Option Error)
      → lookup key (completed_tracker p r e).entries ≡ lookup key t.entries
  unfolding completed_tracker
  completed_tracker-lookup p r e = refl

  pub wait-completed_tracker :
      (p : ℕ) (r : Option Response) (e : Option Error)
      → wait (completed_tracker p r e) p ≡ some (r, e)
  unfolding completed_tracker wait update
  wait-completed_tracker p r e = ground arith
