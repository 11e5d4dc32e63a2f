-- ===== src/Provider/Entries.antt =====
-- What a stored entry keeps of the response that it was made from.
use klayengo.Prelude.{ℕ, ◌≡◌, Option, none, some, List}
use klayengo.Http.{Response, Body}
use klayengo.HttpCache.{CacheEntry}
use klayengo.Provider.{create_entry, read_limited, create_cache_entry, create_response_from_cache}

create_entry-response :
    (content : Option (List ℕ)) (resp resp' : Response) (entry : CacheEntry)
    → create_entry content resp ≡ some (entry, resp')
    → create_response_from_cache entry ≡ record resp' { request_method = none }
unfolding create_entry create_response_from_cache
create_entry-response none resp resp' entry h = absurd (cc (h))
create_entry-response (some content) resp resp' entry h = cc (h)

-- A stored entry gives back the response, but for the request that it belongs to.
pub create_cache_entry-response :
    (b : Body) (resp resp' : Response) (entry : CacheEntry)
    → create_cache_entry b resp ≡ some (entry, resp')
    → create_response_from_cache entry ≡ record resp' { request_method = none }
unfolding create_cache_entry
create_cache_entry-response b resp resp' entry h =
    create_entry-response (read_limited 10485760 b) resp resp' entry h
