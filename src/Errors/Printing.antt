-- ===== src/Errors/Printing.antt =====
-- `Error` and `DebugInfo` of errors.go. What fmt and time print of numbers, times and durations, and what
-- other code's errors print, are parameters.
use Prim.Native.String.{◌++◌}
use text.Mathlib.Text.{◌==◌}
use text.Mathlib.TextLemmas.{append-nil, nil-append, append_assoc}
use klayengo.Prelude.{
  ℕ, ◌≡◌, refl, sym, ap, subst, ◌∙◌, Bool, true, false, if◌then◌else◌, String, Option, none, some,
}
use klayengo.Prelude.Int.{ℤ, pos, ltb_ℤ, eqb_ℤ}
use klayengo.HttpCache.{zero_time}
use klayengo.Errors.{
  ErrorInfo, Sentinel, circuit_open, rate_limited, cache_miss, retry_budget_exceeded, same_sentinel,
  Error, sentinel, client_error, bare_client_error, wrapped, foreign, is_sentinel,
}

pub record Printer : Type 0 where
  pub decimal : ℤ → String
  pub rfc3339 : ℤ → String
  pub duration : ℤ → String
  pub foreign_text : ℕ → String

-- The messages of the sentinels.
abbrev pub sentinel_text : Sentinel → String
sentinel_text circuit_open = "klayengo: circuit open"
sentinel_text rate_limited = "klayengo: rate limited"
sentinel_text cache_miss = "klayengo: cache miss"
sentinel_text retry_budget_exceeded = "klayengo: retry budget exceeded"

module _ (p : Printer) where
  open p use {decimal, rfc3339, duration, foreign_text}

  -- The request's id in front and the attempt behind, where they are set.
  decorated : ErrorInfo → String → String
  decorated e msg =
      let with_id = if e.request_id == "" then msg else "[" ++ (e.request_id ++ ("] " ++ msg)) in
      if ltb_ℤ (pos 0) e.attempt
      then with_id
        ++ (" (attempt " ++ (decimal e.attempt ++ ("/" ++ (decimal e.max_retries ++ ")"))))
      else with_id

  -- `Error()`; a wrapping error prints its message, a colon and its cause.
  unfoldable pub error_text : Error → String
  unfolding decorated
  error_text (sentinel s) = sentinel_text s
  error_text (client_error e cause) =
      decorated e (e.type_name ++ (": " ++ (e.message ++ (" (" ++ (error_text cause ++ ")")))))
  error_text (bare_client_error e) = decorated e (e.type_name ++ (": " ++ e.message))
  error_text (wrapped m cause) = m ++ (": " ++ error_text cause)
  error_text (foreign n) = foreign_text n

  abbrev line_if : Bool → String → String → String
  line_if shown label value = if shown then label ++ (value ++ "\n") else ""

  abbrev named : String → String → String
  named label value = if value == "" then "" else label ++ (value ++ "\n")

  unfoldable pub debug_info : ErrorInfo → Option Error → String
  unfolding error_text
  debug_info e cause =
      "Error Type: "
      ++ (e.type_name
          ++ ("\nMessage: "
              ++ (e.message
                  ++ ("\n"
                      ++ (named "Request ID: " e.request_id
                          ++ (named "Method: " e.method
                              ++ (named "URL: " e.url
                                  ++ (named "Endpoint: " e.endpoint
                                      ++ (line_if (ltb_ℤ (pos 0) e.status_code) "Status Code: "
                                            (decimal e.status_code)
                                          ++ (line_if (ltb_ℤ (pos 0) e.attempt) "Attempt: " (
                                                decimal e.attempt ++ ("/" ++ decimal e.max_retries))
                                              ++ (line_if
                                                    (if eqb_ℤ e.timestamp zero_time
                                                      then false
                                                      else true)
                                                    "Timestamp: " (rfc3339 e.timestamp)
                                                  ++ (line_if (ltb_ℤ (pos 0) e.duration)
                                                        "Duration: " (duration e.duration)
                                                      ++ (elim cause [
                                                        | none ↦ ""
                                                        | some c ↦
                                                            "Cause: " ++ (error_text c ++ "\n")
                                                      ])))))))))))))

-- One text stands in another.
abbrev pub Within : String → String → Type 0
Within part whole = (before : String) × (after : String) × (before ++ (part ++ after) ≡ whole)

Within-itself : (t : String) → Within t t
Within-itself t = ("", "", nil-append (t ++ "") ∙ append-nil t)

Within-behind : (a b x : String) → Within a b → Within a (x ++ b)
Within-behind a b x (before, after, h) =
    (x ++ before, after, append_assoc x before (a ++ after) ∙ ap (λ t. x ++ t) h)

Within-before : (a b x : String) → Within a b → Within a (b ++ x)
Within-before a b x (before, after, h) = (
  before,
  after ++ x,
  ap (λ t. before ++ t) (sym (append_assoc a after x))
      ∙ sym (append_assoc before (a ++ after) x)
      ∙ ap (λ t. t ++ x) h,
)

Within-either :
    (b : Bool) (a x y : String) → Within a x → Within a y → Within a (if b then x else y)
Within-either true a x y h i = h
Within-either false a x y h i = i

same_sentinel-eq : (t s : Sentinel) → same_sentinel t s ≡ true → t ≡ s
same_sentinel-eq circuit_open circuit_open h = refl
same_sentinel-eq rate_limited rate_limited h = refl
same_sentinel-eq cache_miss cache_miss h = refl
same_sentinel-eq retry_budget_exceeded retry_budget_exceeded h = refl
same_sentinel-eq _ _ h = absurd (cc (h))

module _ (p : Printer) where
  decorated-Within : (e : ErrorInfo) (a msg : String) → Within a msg → Within a (decorated p e msg)
  unfolding decorated
  decorated-Within e a msg h =
      let with_id = if e.request_id == "" then msg else "[" ++ (e.request_id ++ ("] " ++ msg)) in
      let front : Within a ("[" ++ (e.request_id ++ ("] " ++ msg))) =
        Within-behind a (e.request_id ++ ("] " ++ msg)) "["
          (Within-behind a ("] " ++ msg) e.request_id (Within-behind a msg "] " h)) in
      let titled : Within a with_id =
        Within-either (e.request_id == "") a msg ("[" ++ (e.request_id ++ ("] " ++ msg))) h front in
      let number =
        " (attempt " ++ (p.decimal e.attempt ++ ("/" ++ (p.decimal e.max_retries ++ ")"))) in
      Within-either (ltb_ℤ (pos 0) e.attempt) a (with_id ++ number) with_id
        (Within-before a with_id number titled) titled

  -- An error that `errors.Is` takes for a sentinel prints that sentinel's message, however many messages and
  -- client errors are put round it.
  pub error_text-sentinel :
      (s : Sentinel) (e : Error)
      → is_sentinel s e ≡ true
      → Within (sentinel_text s) (error_text p e)
  unfolding is_sentinel error_text
  error_text-sentinel s (sentinel t) h =
      subst (λ u. Within (sentinel_text s) (sentinel_text u)) (sym (same_sentinel-eq t s h))
        (Within-itself (sentinel_text s))
  error_text-sentinel s (client_error e cause) h =
      let a = sentinel_text s in
      let inner = error_text p cause in
      decorated-Within e a (e.type_name ++ (": " ++ (e.message ++ (" (" ++ (inner ++ ")"))))) (
        Within-behind a _ e.type_name (
          Within-behind a _ ": " (
            Within-behind a _ e.message (
              Within-behind a _ " (" (Within-before a inner ")" (error_text-sentinel s cause h))))))
  error_text-sentinel s (bare_client_error e) h = absurd (cc (h))
  error_text-sentinel s (wrapped m cause) h =
      let a = sentinel_text s in
      Within-behind a _ m (Within-behind a _ ": " (error_text-sentinel s cause h))
  error_text-sentinel s (foreign n) h = absurd (cc (h))
