-- ===== src/Client/Requests/Fetch/Bounded.antt =====
-- What `Do` of client.go sends on a miss.
use klayengo.Prelude.{
  ℕ, suc, ◌+◌, ◌≤◌, ◌≡◌, refl, Bool, true, false, String, Option, none, some, arith,
}
use klayengo.Prelude.Int.{ℤ}
use klayengo.Http.{Request, Response, Body}
use klayengo.Errors.{Error}
use klayengo.Backoff.{Float}
use klayengo.Flight.{Ticket, runs, waits, in_progress, begin, wait}
use klayengo.HttpCache.{CacheEntry}
use klayengo.Provider.{Cache, create_cache_entry}
use klayengo.Client.{Exchange, Env, Call, cache_size}
use klayengo.Client.CacheRules.{get_cache_ttl_for_request}
use klayengo.Client.Requests.{CacheProvider, replied, Rules, ClientState, Reached, attempts}
use klayengo.Client.Requests.Bounded.{Bounded, if-Bounded, and_then-Bounded, note-sent}
use klayengo.Client.Requests.Hits.{set_provided}
use klayengo.Client.Requests.Hits.Bounded.{set_provided-sent}
use klayengo.Client.Requests.Fetch.{
  is_cached_status, store_in_flight, land, join, by_ticket, single_flight_do, fetch, note_size,
  set_cached, keep_entry, store_entry, store_either, store,
}

module _ (f : Float) (env : Env f) (cache : Cache) (provider : CacheProvider f env)
    (r : Rules f env cache provider) (sent : env.World → ℕ)
    (sent-now : (w : env.World) → sent (env.now w).1 ≡ sent w)
    (sent-get : (entries : provider.Entries) (key : String) (w : env.World)
      → sent (provider.get entries key w).1 ≡ sent w)
    (sent-set : (entries : provider.Entries) (key : String) (resp : Response) (ttl : ℤ)
        (w : env.World)
      → sent (provider.set entries key resp ttl w).1 ≡ sent w) where
  abbrev S : Type 0
  S = ClientState f env cache provider

  abbrev BoundedBy : ℕ → Reached f env cache provider → Type 0
  BoundedBy k x = Bounded f env cache provider r sent k x

  set_provided-Bounded :
      (key : String) (resp : Response) (ttl : ℤ) (k : ℕ) (s : S)
      → sent s.base.world ≤ k
      → let (s', resp') = set_provided f env cache provider r key resp ttl s in
        BoundedBy k (replied (some resp') none, s')
  set_provided-Bounded key resp ttl k s below = (
    refl,
    omega (
      arith,
      below,
      set_provided-sent f env cache provider r sent sent-now sent-get sent-set key resp ttl s,
    ),
  )

  store_in_flight-Bounded :
      (req : Request) (key : String) (k : ℕ) (resp : Option Response) (err : Option Error) (s : S)
      → sent s.base.world ≤ k
      → BoundedBy k (store_in_flight f env cache provider r req key resp err s)
  unfolding store_in_flight
  store_in_flight-Bounded req key k resp (some err) s below = (refl, below)
  store_in_flight-Bounded req key k none none s below = (refl, below)
  store_in_flight-Bounded req key k (some resp) none s below =
      if-Bounded f env cache provider r sent (is_cached_status f env cache provider r resp) k _ _
        (set_provided-Bounded key resp (get_cache_ttl_for_request r.cache_ttl req) k s below)
        (refl, below)

  note_size-sent :
      (o : Option ℤ) (s : S)
      → sent (note_size f env cache provider r o s).base.world ≡ sent s.base.world
  unfolding note_size
  note_size-sent none s = refl
  note_size-sent (some n) s = note-sent f env cache provider r sent (cache_size n) s

  keep_entry-Bounded :
      (entries : cache.State) (key : String) (req : Request) (made : Option (CacheEntry × Response))
      (k : ℕ) (s : S)
      → sent s.base.world ≤ k
      → BoundedBy k (keep_entry f env cache provider r entries key req made s)
  unfolding keep_entry set_cached
  keep_entry-Bounded entries key req none k s below = (refl, below)
  keep_entry-Bounded entries key req (some (entry, resp)) k s below =
      let (t, w) = env.now s.base.world in
      let entries' = cache.set entries key entry (get_cache_ttl_for_request r.cache_ttl req) t in
      let s' = record s { entries = some entries'; base = record s.base { world = w } } in
      (refl, omega (arith, below, note_size-sent (r.cache_size entries') s', sent-now s.base.world))

  store_entry-Bounded :
      (entries : cache.State) (key : String) (req : Request) (resp : Response) (body : Option Body)
      (k : ℕ) (s : S)
      → sent s.base.world ≤ k
      → BoundedBy k (store_entry f env cache provider r entries key req resp body s)
  unfolding store_entry
  store_entry-Bounded entries key req resp none k s below = (refl, below)
  store_entry-Bounded entries key req resp (some body) k s below =
      keep_entry-Bounded entries key req (create_cache_entry body resp) k s below

  store_either-Bounded :
      (p : Option provider.Entries) (o : Option cache.State) (key : String) (req : Request)
      (resp : Response) (k : ℕ) (s : S)
      → sent s.base.world ≤ k
      → BoundedBy k (store_either f env cache provider r p o key req resp s)
  unfolding store_either
  store_either-Bounded (some provided) o key req resp k s below =
      set_provided-Bounded key resp (get_cache_ttl_for_request r.cache_ttl req) k s below
  store_either-Bounded none (some entries) key req resp k s below =
      store_entry-Bounded entries key req resp resp.body k s below
  store_either-Bounded none none key req resp k s below = (refl, below)

  pub store-Bounded :
      (enabled : Bool) (req : Request) (resp : Option Response) (err : Option Error) (k : ℕ) (s : S)
      → sent s.base.world ≤ k
      → BoundedBy k (store f env cache provider r enabled req resp err s)
  unfolding store
  store-Bounded enabled req resp (some err) k s below = (refl, below)
  store-Bounded false req resp none k s below = (refl, below)
  store-Bounded true req none none k s below = (refl, below)
  store-Bounded true req (some resp) none k s below =
      if-Bounded f env cache provider r sent (is_cached_status f env cache provider r resp) k _ _
        (store_either-Bounded s.provided s.entries (r.cache_key_func req) req resp k s below)
        (refl, below)

  join-Bounded :
      (o : Option Exchange) (k : ℕ) (s : S)
      → sent s.base.world ≤ k
      → BoundedBy k (join f env cache provider r o s)
  unfolding join
  join-Bounded none k s below = (refl, below)
  join-Bounded (some (resp, err)) k s below = (refl, below)

  module _ (fuel m : ℕ)
      (attempts-Bounded : (call : Call f env) (k : ℕ) (s : S)
        → sent s.base.world ≤ k
        → BoundedBy (suc (k + m)) (attempts f env cache provider r.config fuel call s)) where
    by_ticket-Bounded :
        (ticket : Ticket) (call : Call f env) (key : String) (k : ℕ) (s : S)
        → sent s.base.world ≤ k
        → BoundedBy (suc (k + m)) (by_ticket f env cache provider r ticket fuel call key s)
    unfolding by_ticket land
    by_ticket-Bounded (runs p) call key k s below =
        and_then-Bounded f env cache provider r sent (suc (k + m)) _
          (land f env cache provider r key p)
          (and_then-Bounded f env cache provider r sent (suc (k + m)) _
            (store_in_flight f env cache provider r call.req key) (attempts-Bounded call k s below)
            (store_in_flight-Bounded call.req key (suc (k + m))))
          (λ resp err s' b. (refl, b))
    by_ticket-Bounded (waits p) call key k s below =
        join-Bounded (wait s.flights p) (suc (k + m)) s (omega (arith, below))
    by_ticket-Bounded in_progress call key k s below = (refl, omega (arith, below))

    pub fetch-Bounded :
        (flying : Bool) (call : Call f env) (k : ℕ) (s : S)
        → sent s.base.world ≤ k
        → BoundedBy (suc (k + m)) (fetch f env cache provider r flying fuel call s)
    unfolding fetch single_flight_do
    fetch-Bounded true call k s below =
        let key = r.cache_key_func call.req in
        let (flights, ticket) = begin s.flights key in
        by_ticket-Bounded ticket call key k (record s { flights = flights }) below
    fetch-Bounded false call k s below = attempts-Bounded call k s below
