-- ===== src/Dedup/Owners/Keeps.antt =====
-- Each event keeps the invariant of owners and entries.
use text.Mathlib.TextEquality.{eq_iff}
use klayengo.Prelude.{
  ℕ, ◌+◌, ◌≡◌, ◌≢◌, ◌∙◌, ap, inl, inr, true, false, String, Option, none, some, List, [], ◌∷◌,
  arith, Bool-cases,
}
use klayengo.Prelude.Assoc.{lookup, insert, delete, lookup-insert, lookup-delete}
use klayengo.Http.{Response}
use klayengo.Errors.{Error}
use klayengo.Dedup.{
  DeduplicationTracker, update, joined, fresh_entry, complete_by, complete, remove_timer, has_timer,
}
use klayengo.Dedup.Owners.{System, finish, step_finish, step, Inv}

join_done :
    (t : DeduplicationTracker) (p q : ℕ)
    → (update t.heap p (joined (t.heap p)) q).done ≡ (t.heap q).done
unfolding update joined
join_done t p q = ground (arith, ap (λ n. (t.heap n).done) {x = q} {y = p})

fewer_timers :
    (j k : String) (ts : List String)
    → has_timer k (remove_timer j ts) ≡ true
    → has_timer k ts ≡ true
unfolding remove_timer has_timer
fewer_timers j k [] h = h
fewer_timers j k (x ∷ ts) h = ground (arith, fewer_timers j k ts)

fewer_remaining :
    (k j : String) (ts : List String)
    → has_timer k (remove_timer k (remove_timer j ts)) ≡ true
    → has_timer k (remove_timer k ts) ≡ true
unfolding remove_timer has_timer
fewer_remaining k j [] h = h
fewer_remaining k j (x ∷ ts) h = ground (
  arith,
  eq_iff x k,
  eq_iff x j,
  fewer_remaining k j ts,
  fewer_timers j k ts,
  fewer_timers k k ts,
)

complete_lem :
    (t : DeduplicationTracker) (key : String) (p : ℕ) (r : Option Response) (e : Option Error)
    → lookup key t.entries ≡ some p
    → (t.heap p).done ≡ false
    → complete t key r e
      ≡ some (record t {
        heap = update t.heap p (record (t.heap p) { response = r; err = e; done = true });
        timers = key ∷ t.timers;
      })
unfolding complete complete_by
complete_lem t key p r e h d = ground arith

module _ (s : System) (v : Inv s) (key : String) where
  abbrev t : DeduplicationTracker
  t = s.tracker

  pub join-Inv :
      (p : ℕ) → Inv (record s { tracker = record t { heap = update t.heap p (joined (t.heap p)) } })
  join-Inv p = record {
    numbered = v.numbered;
    apart = v.apart;
    registered = v.registered;
    undone = λ k q h. join_done t p q ∙ v.undone k q h;
    pending = v.pending;
    once = v.once;
    quiet = v.quiet;
  }

  abbrev pub created : System
  created = record {
    tracker = record t {
      entries = insert key t.next t.entries;
      heap = update t.heap t.next fresh_entry;
      next = t.next + 1;
    };
    owners = insert key t.next s.owners;
  }

  module _ (absent : lookup key t.entries ≡ none) where
    no_timer : has_timer key t.timers ≡ false
    no_timer = elim (Bool-cases (has_timer key t.timers)) [
      | inl h ↦ absurd (v.pending key h absent)
      | inr h ↦ h
    ]

    create_undone :
        (k : String) (q : ℕ)
        → lookup k created.owners ≡ some q
        → (created.tracker.heap q).done ≡ false
    unfolding update
    create_undone k q h = ground (arith, lookup-insert key k t.next s.owners, v.undone k q)

    pub create-Inv : Inv created
    create-Inv = record {
      numbered = λ k q h. ground (arith, lookup-insert key k t.next t.entries, v.numbered k q);
      apart = λ k j q h g. ground (
        arith,
        lookup-insert key k t.next t.entries,
        lookup-insert key j t.next t.entries,
        eq_iff key k,
        eq_iff key j,
        v.apart k j q,
        v.numbered k q,
        v.numbered j q,
      );
      registered = λ k q h. ground (
        arith,
        lookup-insert key k t.next t.entries,
        lookup-insert key k t.next s.owners,
        v.registered k q,
      );
      undone = create_undone;
      pending = λ k h e. ground (arith, lookup-insert key k t.next t.entries, v.pending k h);
      once = v.once;
      quiet = λ k h. ground (
        arith,
        lookup-insert key k t.next s.owners,
        eq_iff key k,
        ap (λ (x : String). has_timer x t.timers) {x = key} {y = k},
        no_timer,
        v.quiet k h,
      );
    }

  abbrev pub finished : ℕ → Option Response → Option Error → System
  finished p r e = record {
    tracker = record t {
      heap = update t.heap p (record (t.heap p) { response = r; err = e; done = true });
      timers = key ∷ t.timers;
    };
    owners = delete key s.owners;
  }

  module _ (p : ℕ) (owned : lookup key s.owners ≡ some p) (r : Option Response)
      (e : Option Error) where
    idle : has_timer key t.timers ≡ false
    idle = elim (Bool-cases (has_timer key t.timers)) [
      | inl h ↦ cc (v.quiet key h, owned)
      | inr h ↦ h
    ]

    finish_undone :
        (k : String) (q : ℕ)
        → lookup k (delete key s.owners) ≡ some q
        → ((finished p r e).tracker.heap q).done ≡ false
    unfolding update
    finish_undone k q h = ground (
      arith,
      lookup-delete key k s.owners,
      v.undone k q,
      v.registered k q,
      v.registered key p owned,
      v.apart key k p,
      eq_iff key k,
    )

    finish_once : (k : String) → has_timer k (remove_timer k (key ∷ t.timers)) ≡ false
    unfolding remove_timer has_timer
    finish_once k = ground (
      arith,
      eq_iff key k,
      ap (λ (x : String). has_timer x t.timers) {x = key} {y = k},
      idle,
      v.once k,
    )

    finish_pending : (k : String) → has_timer k (key ∷ t.timers) ≡ true → lookup k t.entries ≢ none
    unfolding has_timer
    finish_pending k h g = ground (
      arith,
      eq_iff key k,
      v.registered key p owned,
      ap (λ (x : String). lookup x t.entries) {x = key} {y = k},
      v.pending k,
    )

    finish_quiet :
        (k : String) → has_timer k (key ∷ t.timers) ≡ true → lookup k (delete key s.owners) ≡ none
    unfolding has_timer
    finish_quiet k h = ground (arith, lookup-delete key k s.owners, v.quiet k)

    pub finish-Inv : Inv (finished p r e)
    finish-Inv = record {
      numbered = v.numbered;
      apart = v.apart;
      registered = λ k q h. ground (arith, lookup-delete key k s.owners, v.registered k q);
      undone = finish_undone;
      pending = finish_pending;
      once = finish_once;
      quiet = finish_quiet;
    }

    pub finish-step : step s (finish key r e) ≡ some (finished p r e)
    unfolding step step_finish
    finish-step =
        let done = complete_lem t key p r e (v.registered key p owned) (v.undone key p owned) in
        ground (arith, done)

  abbrev pub expired : System
  expired = record s {
    tracker = record t { timers = remove_timer key t.timers; entries = delete key t.entries };
  }

  module _ (started : has_timer key t.timers ≡ true) where
    expire_once : (k : String) → has_timer k (remove_timer k (remove_timer key t.timers)) ≡ false
    expire_once k = elim (Bool-cases (has_timer k (remove_timer k (remove_timer key t.timers)))) [
      | inl h ↦ cc (fewer_remaining k key t.timers h, v.once k)
      | inr h ↦ h
    ]

    expire_pending :
        (k : String)
        → has_timer k (remove_timer key t.timers) ≡ true
        → lookup k (delete key t.entries) ≢ none
    expire_pending k h g = ground (
      arith,
      lookup-delete key k t.entries,
      eq_iff key k,
      ap (λ (x : String). has_timer x (remove_timer key t.timers)) {x = key} {y = k},
      v.once key,
      fewer_timers key k t.timers h,
      v.pending k,
    )

    pub expire-Inv : Inv expired
    expire-Inv = record {
      numbered = λ k q h. ground (arith, lookup-delete key k t.entries, v.numbered k q);
      apart = λ k j q h g.
          ground
            (arith, lookup-delete key k t.entries, lookup-delete key j t.entries, v.apart k j q);
      registered = λ k q h. ground (
        arith,
        lookup-delete key k t.entries,
        eq_iff key k,
        ap (λ (x : String). lookup x s.owners) {x = key} {y = k},
        v.quiet key started,
        v.registered k q h,
      );
      undone = v.undone;
      pending = expire_pending;
      once = expire_once;
      quiet = λ k h. v.quiet k (fewer_timers key k t.timers h);
    }
