-- ===== src/Lib.antt =====
-- klayengo, a resilient HTTP client for Go.
--
-- The client sends a request in attempts. An attempt asks the rate limiter (one bucket, or the
-- registry's for the request's key) and the circuit breaker, runs the middleware around the
-- transport, tells the breaker how that went, and asks the retry policy or the legacy condition
-- whether to retry and after which delay; the retry budget has the last word. In front of the
-- attempts stand the response cache and the deduplication of requests.
--
-- Breaker (circuit_breaker.go) has `Allow`, `RecordFailure` and `RecordSuccess` as functions on the
-- breaker's fields, dispatched on its state; Breaker/Optimized (circuit_breaker_optimized.go) the
-- same calls of the optimized breaker, with `GetStats` and `Reset`.
-- Limiter (rate_limiter.go) has `refillTokens`, `consumeToken` and `Allow`; Limiter/Bucket a
-- bucket over the naturals, Limiter/Rate histories of calls.
-- Limiter/Optimized (rate_limiter_optimized.go) has the batched limiter with all its operations,
-- Limiter/Optimized/Batched a bucket over the naturals for it, Limiter/Optimized/Rate histories of calls.
-- Registry (rate_limiter_registry.go) has the registry, over a store of buckets to which its
-- references point, since limiters are shared.
-- Backoff (internal/backoff, `calculateBackoff` of client.go and of retry_policy.go) has both
-- strategies and their copies for a nil calculator, over a parameter for float64.
-- Retry (retry_policy.go) has `ShouldRetry`, `parseRetryAfter` and the legacy condition of
-- client.go; Budget (retry_policy.go) the retry budget, Budget/Window a fixed window.
-- Errors (errors.go, `ClientError` of types.go) has the sentinels, the chain of causes with
-- `errors.Is` and `errors.As` on it, and `IsTransient`, and Errors/Printing the texts of `Error` and
-- `DebugInfo`.
-- Http has what the code uses of net/http: a header is the first value of each canonical key.
-- HttpCache (http_cache.go) has the parsing of Cache-Control, Expires and Last-Modified, the expiry
-- and the entries; Cache (cache.go) the sharded map, with the hash as a parameter: the shards hold
-- pointers, and the entries that callers share stand in a heap that `Set` writes to; Provider
-- (cache_provider.go, and the conversions of cache.go) both providers over any `Cache`.
-- Cache/Optimized (cache_optimized.go) has the shards, with a heap of the entries that are linked to
-- each other, Cache/Optimized/Calls the cache's calls and its provider, Cache/Optimized/Lru the list of
-- items that a shard stands for, Cache/Optimized/Sharded one such list for each shard, and
-- Cache/Optimized/Stats `GetStats`.
-- Dedup (deduplication.go) has the tracker, with a heap of the entries that requests share, and
-- Dedup/Owners the histories of requests, completions and timers, Dedup/Keys the default key.
-- Flight (internal/singleflight, and the fallback of `singleFlightDo` in client.go) has the group of
-- calls, and Flight/Runs the histories of callers, results and cleanings.
-- Client (client.go) has `executeMiddleware`, `createClientError` and the retry decision,
-- Client/Attempts one attempt in its stages and `doWithRetry` (Attempts/Unregistered joins it to a client
-- made with the limiter options), and Client/CacheRules (cache.go) the
-- cache's key, condition and time to live for a request.
-- Client/Requests (client.go) has `Do`: Requests/Hits what it does with a cached entry, Requests/Fetch
-- the fetching, alone or in the single flight, and the storing, and Requests/Whole its stages from
-- the deduplication to the completion. A call of `Do` runs by itself, from a state that others left.
-- Validation (options.go) has `ValidateConfiguration` as the list of its messages. Options (client.go)
-- has `Client` and `New`, and Options/With (options.go) the options, over heaps of the limiters, the debug
-- settings and the http.Clients that callers share.
-- Prelude has the shared names and lemmas, Text what is used of strings and strconv.
--
-- An int, an int64 and a duration are integers with the wrap-around of 64 bits written out
-- (Prelude/Int64); a time is its nanoseconds, and a difference of times (`Sub`, `Since`, `Until`)
-- saturates at 64 bits. A call
-- takes the readings of the clock and the random numbers that it uses as arguments; in the client
-- they come from a world, an argument like the transport, the middleware, the retry policy, the
-- time parsers and the hash. A nil dereference (of a limiter, a request's URL, a response's
-- request) or a double close is a value, a fault. Calls on one
-- component run one after the other, so a compare-and-swap succeeds at once; Dedup orders the calls
-- of different requests in every way. `doWithRetry`, and so `Do`, runs on fuel, one unit for an
-- attempt; a client with a maximum of `m` retries needs `m + 1`.
--
-- Not modelled: the metrics (metrics.go: the client's calls of it are kept in a list), the logger, the
-- memory footprint of the optimized limiter, the cancelling of a context, and the revalidation in the background,
-- which is only recorded; and the interleaving of the atomic steps of concurrent calls on one
-- component, or of calls of `Do`.
pub mod Prelude
pub mod Text
pub mod Http
pub mod Errors
pub mod Breaker
pub mod Limiter
pub mod Backoff
pub mod Retry
pub mod Budget
pub mod HttpCache
pub mod Cache
pub mod Provider
pub mod Registry
pub mod Dedup
pub mod Flight
pub mod Options
pub mod Validation
pub mod Client
