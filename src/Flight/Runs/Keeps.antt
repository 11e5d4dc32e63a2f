-- ===== src/Flight/Runs/Keeps.antt =====
-- Each event keeps the invariant of the running functions.
use text.Mathlib.TextEquality.{eq_iff}
use klayengo.Prelude.{
  ℕ, ◌<◌, ◌≡◌, refl, ap, inl, inr, Bool, true, false, String, none, some, List, [], ◌∷◌, arith,
  Bool-cases,
}
use klayengo.Prelude.Assoc.{lookup, insert, delete, lookup-insert, lookup-delete}
use klayengo.Flight.{
  Group, write, register, finish, clean_up, clean_up_fallback, remove_cleanup, has_cleanup,
}
use klayengo.Flight.Runs.{System, cleaned, Inv}

fewer_cleanups :
    (j k : String) (p q : ℕ) (cs : List (String × ℕ))
    → has_cleanup k q (remove_cleanup j p cs) ≡ true
    → has_cleanup k q cs ≡ true
unfolding remove_cleanup has_cleanup
fewer_cleanups j k p q [] h = h
fewer_cleanups j k p q ((i, o) ∷ cs) h = ground (arith, fewer_cleanups j k p q cs)

fewer_remaining :
    (j k : String) (p q : ℕ) (cs : List (String × ℕ))
    → has_cleanup k q (remove_cleanup k q (remove_cleanup j p cs)) ≡ true
    → has_cleanup k q (remove_cleanup k q cs) ≡ true
unfolding remove_cleanup has_cleanup
fewer_remaining j k p q [] h = h
fewer_remaining j k p q ((i, o) ∷ cs) h = ground (
  arith,
  eq_iff i j,
  eq_iff i k,
  fewer_remaining j k p q cs,
  fewer_cleanups j k p q cs,
  fewer_cleanups k k q q cs,
)

module _ {A : Type 0} (s : System A) (v : Inv s) (key : String) where
  abbrev g : Group A
  g = s.group

  abbrev pub begun : System A
  begun = record { group = register g key; running = insert key g.next s.running }

  module _ (absent : lookup key g.calls ≡ none) where
    begin_undone :
        (k : String) (p : ℕ) → lookup k begun.running ≡ some p → (begun.group.heap p).done ≡ false
    unfolding register write
    begin_undone k p h = ground (arith, lookup-insert key k g.next s.running, v.undone k p)

    begin_ended :
        (k : String) (p : ℕ)
        → has_cleanup k p begun.group.cleanups ≡ true
        → (begun.group.heap p).done ≡ true
    unfolding register write
    begin_ended k p h = ground (arith, v.ended k p h, v.numbered k p (v.pending k p h))

    begin_apart :
        (k j : String) (p : ℕ)
        → lookup k begun.group.calls ≡ some p
        → lookup j begun.group.calls ≡ some p
        → k ≡ j
    unfolding register
    begin_apart k j p h i = ground (
      arith,
      lookup-insert key k g.next g.calls,
      lookup-insert key j g.next g.calls,
      eq_iff key k,
      eq_iff key j,
      v.apart k j p,
      v.numbered k p,
      v.numbered j p,
    )

    begin_pending :
        (k : String) (p : ℕ)
        → has_cleanup k p begun.group.cleanups ≡ true
        → lookup k begun.group.calls ≡ some p
    unfolding register
    begin_pending k p h = ground (
      arith,
      lookup-insert key k g.next g.calls,
      eq_iff key k,
      ap (λ (x : String). lookup x g.calls) {x = key} {y = k},
      v.pending k p h,
    )

    begin_numbered :
        (k : String) (p : ℕ) → lookup k begun.group.calls ≡ some p → p < begun.group.next
    unfolding register
    begin_numbered k p h = ground (arith, lookup-insert key k g.next g.calls, v.numbered k p)

    begin_registered :
        (k : String) (p : ℕ) → lookup k begun.running ≡ some p → lookup k begun.group.calls ≡ some p
    unfolding register
    begin_registered k p h = ground (
      arith,
      lookup-insert key k g.next g.calls,
      lookup-insert key k g.next s.running,
      v.registered k p,
    )

    begin_once :
        (k : String) (p : ℕ) → has_cleanup k p (remove_cleanup k p begun.group.cleanups) ≡ false
    unfolding register
    begin_once k p = v.once k p

    pub begin-Inv : Inv begun
    begin-Inv = record {
      numbered = begin_numbered;
      apart = begin_apart;
      registered = begin_registered;
      undone = begin_undone;
      pending = begin_pending;
      ended = begin_ended;
      once = begin_once;
    }

  module _ (p : ℕ) (r : A) (runs : lookup key s.running ≡ some p) where
    abbrev pub returned : System A
    returned = record { group = finish g key p r; running = delete key s.running }

    return_undone :
        (k : String) (q : ℕ)
        → lookup k returned.running ≡ some q
        → (returned.group.heap q).done ≡ false
    unfolding finish write
    return_undone k q h = ground (
      arith,
      lookup-delete key k s.running,
      v.undone k q,
      v.registered k q,
      v.registered key p runs,
      v.apart key k p,
      eq_iff key k,
    )

    none_ended : has_cleanup key p g.cleanups ≡ false
    none_ended = elim (Bool-cases (has_cleanup key p g.cleanups)) [
      | inl h ↦ cc (v.ended key p h, v.undone key p runs)
      | inr h ↦ h
    ]

    return_pending :
        (k : String) (q : ℕ)
        → has_cleanup k q returned.group.cleanups ≡ true
        → lookup k returned.group.calls ≡ some q
    unfolding finish has_cleanup
    return_pending k q h = ground (
      arith,
      eq_iff key k,
      ap (λ (x : String). lookup x g.calls) {x = key} {y = k},
      v.registered key p runs,
      v.pending k q,
    )

    return_ended :
        (k : String) (q : ℕ)
        → has_cleanup k q returned.group.cleanups ≡ true
        → (returned.group.heap q).done ≡ true
    unfolding finish write has_cleanup
    return_ended k q h = ground (arith, v.ended k q)

    return_once :
        (k : String) (q : ℕ) → has_cleanup k q (remove_cleanup k q returned.group.cleanups) ≡ false
    unfolding finish has_cleanup remove_cleanup
    return_once k q = ground (
      arith,
      eq_iff key k,
      ap (λ (x : String). has_cleanup x q g.cleanups) {x = key} {y = k},
      ap (λ (n : ℕ). has_cleanup key n g.cleanups) {x = p} {y = q},
      none_ended,
      v.once k q,
    )

    return_numbered :
        (k : String) (q : ℕ) → lookup k returned.group.calls ≡ some q → q < returned.group.next
    unfolding finish
    return_numbered k q h = v.numbered k q h

    return_apart :
        (k j : String) (q : ℕ)
        → lookup k returned.group.calls ≡ some q
        → lookup j returned.group.calls ≡ some q
        → k ≡ j
    unfolding finish
    return_apart k j q h i = v.apart k j q h i

    return_registered :
        (k : String) (q : ℕ)
        → lookup k returned.running ≡ some q
        → lookup k returned.group.calls ≡ some q
    unfolding finish
    return_registered k q h = ground (arith, lookup-delete key k s.running, v.registered k q)

    pub return-Inv : Inv returned
    return-Inv = record {
      numbered = return_numbered;
      apart = return_apart;
      registered = return_registered;
      undone = return_undone;
      pending = return_pending;
      ended = return_ended;
      once = return_once;
    }

  module _ (p : ℕ) (ends : has_cleanup key p g.cleanups ≡ true) where
    abbrev pub swept : System A
    swept = record s {
      group = record g { calls = delete key g.calls; cleanups = remove_cleanup key p g.cleanups };
    }

    pub cleaned-swept :
        (checked : Bool)
        → cleaned checked (record g { cleanups = remove_cleanup key p g.cleanups }) key p
          ≡ swept.group
    unfolding cleaned clean_up clean_up_fallback
    cleaned-swept true = ground (arith, v.pending key p ends)
    cleaned-swept false = refl

    sweep_pending :
        (k : String) (q : ℕ)
        → has_cleanup k q swept.group.cleanups ≡ true
        → lookup k swept.group.calls ≡ some q
    sweep_pending k q h = ground (
      arith,
      lookup-delete key k g.calls,
      eq_iff key k,
      v.pending key p ends,
      ap (λ (x : String). lookup x g.calls) {x = key} {y = k},
      ap (λ (x : String). has_cleanup x q (remove_cleanup key p g.cleanups)) {x = key} {y = k},
      ap (λ (n : ℕ). has_cleanup key n (remove_cleanup key p g.cleanups)) {x = p} {y = q},
      v.once key p,
      v.pending k q (fewer_cleanups key k p q g.cleanups h),
    )

    sweep_registered :
        (k : String) (q : ℕ) → lookup k s.running ≡ some q → lookup k swept.group.calls ≡ some q
    sweep_registered k q h = ground (
      arith,
      lookup-delete key k g.calls,
      eq_iff key k,
      v.pending key p ends,
      ap (λ (x : String). lookup x g.calls) {x = key} {y = k},
      v.registered k q h,
      v.undone k q h,
      v.ended key p ends,
    )

    sweep_once :
        (k : String) (q : ℕ) → has_cleanup k q (remove_cleanup k q swept.group.cleanups) ≡ false
    sweep_once k q = elim (Bool-cases (has_cleanup k q (remove_cleanup k q swept.group.cleanups))) [
      | inl h ↦ cc (fewer_remaining key k p q g.cleanups h, v.once k q)
      | inr h ↦ h
    ]

    pub sweep-Inv : Inv swept
    sweep-Inv = record {
      numbered = λ k q h. ground (arith, lookup-delete key k g.calls, v.numbered k q);
      apart = λ k j q h i.
          ground (arith, lookup-delete key k g.calls, lookup-delete key j g.calls, v.apart k j q);
      registered = sweep_registered;
      undone = v.undone;
      pending = sweep_pending;
      ended = λ k q h. v.ended k q (fewer_cleanups key k p q g.cleanups h);
      once = sweep_once;
    }
