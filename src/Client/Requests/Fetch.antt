-- ===== src/Client/Requests/Fetch.antt =====
-- What `Do` of client.go does on a miss: the attempts, alone or in the single flight, and the
-- storing of the response.
pub mod Stored
pub mod Bounded
use klayengo.Prelude.{ℕ, Bool, true, false, ◌&&◌, not, if◌then◌else◌, String, Option, none, some}
use klayengo.Prelude.Int.{ℤ, pos, ltb_ℤ}
use klayengo.Http.{Request, Response, Body}
use klayengo.Errors.{Error}
use klayengo.Backoff.{Float}
use klayengo.Dedup.{DeduplicationTracker, complete}
use klayengo.Flight.{Ticket, runs, waits, in_progress, begin, finish, wait}
use klayengo.HttpCache.{CacheEntry}
use klayengo.Provider.{CacheMode, ttl_only, http_semantics, swr, Cache, create_cache_entry}
use klayengo.Client.{Exchange, Env, Call, cache_size}
use klayengo.Client.CacheRules.{get_cache_ttl_for_request}
use klayengo.Client.Requests.{
  CacheProvider, replied, crashed, waiting, Rules, ClientState, Reached, note, note_end, attempts,
  and_then,
}
use klayengo.Client.Requests.Hits.{set_provided}

module _ (f : Float) (env : Env f) (cache : Cache) (provider : CacheProvider f env)
    (r : Rules f env cache provider) where
  abbrev S : Type 0
  S = ClientState f env cache provider

  -- `StatusCode < 400`.
  abbrev is_cached_status : Response → Bool
  is_cached_status resp = ltb_ℤ resp.status_code (pos 400)

  -- The storing inside the flight: it reads the status of a response that may be nil.
  store_in_flight :
      Request → String → Option Response → Option Error → S → Reached f env cache provider
  unfolding get_cache_ttl_for_request
  store_in_flight req key resp (some err) s = (replied resp (some err), s)
  store_in_flight req key none none s = (crashed, s)
  store_in_flight req key (some resp) none s =
      if is_cached_status resp
      then (let (s', resp') =
            set_provided f env cache provider r key resp (get_cache_ttl_for_request r.cache_ttl req)
              s in
          (replied (some resp') none, s'))
      else (replied (some resp) none, s)

  -- The flight of the caller with the pointer `p` ends.
  land : String → ℕ → Option Response → Option Error → S → Reached f env cache provider
  unfolding finish
  land key p resp err s =
      (replied resp err, record s { flights = finish s.flights key p (resp, err) })

  -- A waiter gets the exchange of the call.
  join : Option Exchange → S → Reached f env cache provider
  join none s = (waiting, s)
  join (some (resp, err)) s = (replied resp err, s)

  by_ticket : Ticket → ℕ → Call f env → String → S → Reached f env cache provider
  unfolding store_in_flight land join
  by_ticket (runs p) fuel call key s =
      and_then f env cache provider
        (and_then f env cache provider (attempts f env cache provider r.config fuel call s)
          (store_in_flight call.req key))
        (land key p)
  by_ticket (waits p) fuel call key s = join (wait s.flights p) s
  by_ticket in_progress fuel call key s = (waiting, s)

  -- `singleFlightDo` around the attempts and the storing; `Do` of the group is never in progress.
  unfoldable pub single_flight_do : ℕ → Call f env → String → S → Reached f env cache provider
  unfolding by_ticket begin
  single_flight_do fuel call key s =
      let (flights, ticket) = begin s.flights key in
      by_ticket ticket fuel call key (record s { flights = flights })

  -- Whether the flight is used: the cache is enabled, and its mode.
  abbrev pub in_flight : Bool → CacheMode → Bool
  in_flight false mode = false
  in_flight true ttl_only = false
  in_flight true http_semantics = true
  in_flight true swr = true

  unfoldable pub fetch : Bool → ℕ → Call f env → S → Reached f env cache provider
  unfolding single_flight_do attempts
  fetch true fuel call s = single_flight_do fuel call (r.cache_key_func call.req) s
  fetch false fuel call s = attempts f env cache provider r.config fuel call s

  note_size : Option ℤ → S → S
  note_size none s = s
  note_size (some n) s = note f env cache provider r (cache_size n) s

  -- `c.cache.Set` and the gauge of its size.
  set_cached : cache.State → String → CacheEntry → ℤ → S → S
  unfolding note_size
  set_cached entries key entry ttl s =
      let (t, w) = env.now s.base.world in
      let entries' = cache.set entries key entry ttl t in
      note_size (r.cache_size entries')
        (record s { entries = some entries'; base = record s.base { world = w } })

  -- The entry of `createCacheEntry`, with the response that it leaves; a nil entry is a fault.
  keep_entry :
      cache.State
      → String
      → Request
      → Option (CacheEntry × Response)
      → S
      → Reached f env cache provider
  unfolding set_cached get_cache_ttl_for_request
  keep_entry entries key req none s = (crashed, s)
  keep_entry entries key req (some (entry, resp)) s = (
    replied (some resp) none,
    set_cached entries key entry (get_cache_ttl_for_request r.cache_ttl req) s,
  )

  -- The legacy cache; a nil body is a fault.
  store_entry :
      cache.State → String → Request → Response → Option Body → S → Reached f env cache provider
  unfolding keep_entry create_cache_entry
  store_entry entries key req resp none s = (crashed, s)
  store_entry entries key req resp (some body) s =
      keep_entry entries key req (create_cache_entry body resp) s

  store_either :
      Option provider.Entries
      → Option cache.State
      → String
      → Request
      → Response
      → S
      → Reached f env cache provider
  unfolding store_entry
  store_either (some provided) entries key req resp s =
      let (s', resp') =
        set_provided f env cache provider r key resp (get_cache_ttl_for_request r.cache_ttl req)
          s in
      (replied (some resp') none, s')
  store_either none (some entries) key req resp s = store_entry entries key req resp resp.body s
  store_either none none key req resp s = (replied (some resp) none, s)

  -- The storing after the attempts; `enabled` is whether the cache is, and no flight has stored.
  unfoldable pub store :
      Bool → Request → Option Response → Option Error → S → Reached f env cache provider
  unfolding store_either
  store enabled req resp (some err) s = (replied resp (some err), s)
  store false req resp none s = (replied resp none, s)
  store true req none none s = (crashed, s)
  store true req (some resp) none s =
      if is_cached_status resp
      then store_either s.provided s.entries (r.cache_key_func req) req resp s
      else (replied (some resp) none, s)
