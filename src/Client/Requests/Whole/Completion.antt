-- ===== src/Client/Requests/Whole/Completion.antt =====
-- `Do` of client.go completes the deduplication entry that it owns, where no cache answers.
use klayengo.Prelude.{ℕ, ◌≡◌, refl, sym, ap, ◌∙◌, true, false, Option, none, some, arith}
use klayengo.Prelude.Int.{ℤ}
use klayengo.Prelude.Assoc.{lookup}
use klayengo.Http.{Request, Response}
use klayengo.Errors.{Error}
use klayengo.Backoff.{Float}
use klayengo.Dedup.{DeduplicationTracker}
use klayengo.Dedup.Laws.{
  created_tracker, completed_tracker, created_tracker-lookup, created_tracker-done,
  complete-registered, completed_tracker-lookup, wait-completed_tracker,
}
use klayengo.Provider.{Cache}
use klayengo.Client.{Env, Call}
use klayengo.Client.Requests.{
  CacheProvider, replied, crashed, no_fuel, waiting, Rules, ClientState, Reached, note, note_end,
  attempts, and_then,
}
use klayengo.Client.Requests.Fetch.{fetch, store}
use klayengo.Client.Requests.Whole.{
  status_of, complete_owned, wind_up, proceed, by_cache, is_cache_enabled, enter, do_request,
}
use klayengo.Client.Requests.Whole.Sharing.{told, owns, do_request-wait}

module _ (f : Float) (env : Env f) (cache : Cache) (provider : CacheProvider f env)
    (r : Rules f env cache provider) where
  abbrev S : Type 0
  S = ClientState f env cache provider

  store-off :
      (req : Request) (resp : Option Response) (err : Option Error) (s : S)
      → store f env cache provider r false req resp err s ≡ (replied resp err, s)
  unfolding store
  store-off req resp none s = refl
  store-off req resp (some e) s = refl

  note_end-deduplication :
      (call : Call f env) (status : ℤ) (s : S)
      → (note_end f env cache provider r call status s).deduplication ≡ s.deduplication
  unfolding note_end note
  note_end-deduplication call status s = refl

  complete_owned-registered :
      (req : Request) (resp : Option Response) (err : Option Error) (s : S)
      (t : DeduplicationTracker) (p : ℕ)
      → s.deduplication ≡ some t
      → lookup (r.dedup_key_func req) t.entries ≡ some p
      → (t.heap p).done ≡ false
      → complete_owned f env cache provider r true req resp err s ≡ (
        replied resp err,
        record s { deduplication = some (completed_tracker t (r.dedup_key_func req) p resp err) },
      )
  unfolding complete_owned
  complete_owned-registered req resp err s t p has registered undone =
      ground (arith, has, complete-registered t (r.dedup_key_func req) p resp err registered undone)

  -- What the attempts of an owner come to without a cache.
  wind_up-owner :
      (call : Call f env) (resp : Option Response) (err : Option Error) (s : S)
      (t : DeduplicationTracker) (p : ℕ)
      → s.deduplication ≡ some t
      → lookup (r.dedup_key_func call.req) t.entries ≡ some p
      → (t.heap p).done ≡ false
      → let noted =
          note_end f env cache provider r call (status_of f env cache provider r resp) s in
        wind_up f env cache provider r true false call resp err s ≡ (
          replied resp err,
          record noted {
            deduplication = some (completed_tracker t (r.dedup_key_func call.req) p resp err);
          },
        )
  unfolding wind_up
  wind_up-owner call resp err s t p has registered undone =
      let noted = note_end f env cache provider r call (status_of f env cache provider r resp) s in
      rw (store-off call.req resp err noted) (
        complete_owned-registered call.req resp err noted t p
          (note_end-deduplication call (status_of f env cache provider r resp) s ∙ has) registered
          undone)

  attempts-deduplication :
      (fuel : ℕ) (call : Call f env) (s : S)
      → (attempts f env cache provider r.config fuel call s).1.deduplication ≡ s.deduplication
  unfolding attempts
  attempts-deduplication fuel call s = refl

  -- The tracker at the end, by the reply of the attempts.
  wind_up-completes :
      (call : Call f env) (a : Reached f env cache provider) (t : DeduplicationTracker) (p : ℕ)
      (resp : Option Response) (err : Option Error)
      → a.1.deduplication ≡ some t
      → lookup (r.dedup_key_func call.req) t.entries ≡ some p
      → (t.heap p).done ≡ false
      → (and_then f env cache provider a (wind_up f env cache provider r true false call)).0
        ≡ replied resp err
      → (and_then f env cache provider a
          (wind_up f env cache provider r true false call)).1.deduplication
        ≡ some (completed_tracker t (r.dedup_key_func call.req) p resp err)
  wind_up-completes call (replied resp' err', s) t p resp err has registered undone ends =
      let wound = wind_up-owner call resp' err' s t p has registered undone in
      let same : replied resp' err' ≡ replied resp err = sym (ap (λ x. x.0) wound) ∙ ends in
      ap (λ x. x.1.deduplication) wound ∙ cc (same)
  wind_up-completes call (crashed, s) t p resp err has registered undone ends = absurd (cc (ends))
  wind_up-completes call (no_fuel, s) t p resp err has registered undone ends = absurd (cc (ends))
  wind_up-completes call (waiting, s) t p resp err has registered undone ends = absurd (cc (ends))

  by_cache-off :
      (fuel : ℕ) (call : Call f env) (s : S)
      → by_cache f env cache provider r false true fuel call s
        ≡ and_then f env cache provider
            (attempts f env cache provider r.config fuel call s)
            (wind_up f env cache provider r true false call)
  unfolding by_cache proceed fetch
  by_cache-off fuel call s = refl

  module _ (req later : Request) (s : S) (t : DeduplicationTracker) (has : s.deduplication ≡ some t)
      (wanted : r.dedup_condition req ≡ true)
      (absent : lookup (r.dedup_key_func req) t.entries ≡ none)
      (same_key : r.dedup_key_func later ≡ r.dedup_key_func req)
      (later_wanted : r.dedup_condition later ≡ true) where
    -- A request that owns a new deduplication entry, at a client without a cache, completes the entry:
    -- what `Do` returns to it, a response or an error, it returns to a later request with the same key
    -- too, as long as the entry is registered.
    pub do_request-shares :
        (fuel later_fuel : ℕ) (resp : Option Response) (err : Option Error)
        → s.entries ≡ none
        → s.provided ≡ none
        → (do_request f env cache provider r fuel req s).0 ≡ replied resp err
        → (do_request f env cache provider r later_fuel later
            (do_request f env cache provider r fuel req s).1).0
          ≡ replied resp err
    unfolding enter note
    do_request-shares fuel later_fuel resp err no_entries no_provider ends =
        let (call, begun) = enter f env cache provider r req s in
        let key = r.dedup_key_func req in
        let made = created_tracker t key in
        let owned : S = record begun { deduplication = some made } in
        let disabled : is_cache_enabled f env cache provider r req owned ≡ false =
          ground (arith, no_entries, no_provider) in
        let a = attempts f env cache provider r.config fuel call owned in
        let ending : do_request f env cache provider r fuel req s
            ≡ and_then f env cache provider a (wind_up f env cache provider r true false call) =
          owns f env cache provider r fuel req s t has wanted absent
          ∙ ap (λ b. by_cache f env cache provider r b true fuel call owned) disabled
          ∙ by_cache-off fuel call owned in
        let left : (do_request f env cache provider r fuel req s).1.deduplication
            ≡ some (completed_tracker made key t.next resp err) =
          ap (λ x. x.1.deduplication) ending
          ∙ wind_up-completes call a made t.next resp err (attempts-deduplication fuel call owned)
              (created_tracker-lookup t key) (created_tracker-done t key)
              (sym (ap (λ x. x.0) ending) ∙ ends) in
        do_request-wait f env cache provider r later_fuel later
          (do_request f env cache provider r fuel req s).1
          (completed_tracker made key t.next resp err) t.next left later_wanted
          (ap (λ k. lookup k (completed_tracker made key t.next resp err).entries) same_key
            ∙ completed_tracker-lookup made key t.next resp err
            ∙ created_tracker-lookup t key)
        ∙ ap (told f env cache provider r) (wait-completed_tracker made key t.next resp err)
