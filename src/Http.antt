-- ===== src/Http.antt =====
-- What the client uses of net/http: requests, responses and headers.
use klayengo.Prelude.{ℕ, Bool, String, Option, none, some, List}
use klayengo.Prelude.Int.{ℤ}
use klayengo.Prelude.Assoc.{lookup, insert}

-- `text` is what `URL.String` prints.
pub record Url : Type 0 where
  pub host : String
  pub path : String
  pub text : String

-- The first value of each key; keys are in their canonical form, in which `Get` and `Set` look.
abbrev pub Header : Type 0
Header = List (String × String)

unfoldable pub header_get : String → Header → String
unfolding lookup
header_get k h = elim (lookup k h) [ none ↦ "" | some v ↦ v ]

unfoldable pub header_set : String → String → Header → Header
unfolding insert
header_set k v h = insert k v h

-- The per-request override that a context carries (types.go).
pub record CacheControl : Type 0 where
  pub enabled : Bool
  pub ttl : ℤ

pub record Request : Type 0 where
  pub method : String
  pub url : Option Url
  pub host : String
  pub header : Header
  pub cache_control : Option CacheControl

-- What a read of the whole body gives: its bytes, and whether the read then fails.
pub record Body : Type 0 where
  pub content : List ℕ
  pub broken : Bool

-- `none` for a nil body; `request_method` is `Request.Method`, and `none`
-- for a response without its request.
pub record Response : Type 0 where
  pub status_code : ℤ
  pub header : Header
  pub body : Option Body
  pub request_method : Option String
