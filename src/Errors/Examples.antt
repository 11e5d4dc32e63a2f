-- ===== src/Errors/Examples.antt =====
-- The theorem on transient errors at a concrete chain.
use klayengo.Prelude.{◌≡◌, refl, true, some, [], ◌∷◌}
use klayengo.Prelude.Int.{pos}
use klayengo.Errors.{
  ErrorInfo, error_type_retry_budget_exceeded, cache_miss, client_error, retry_budget_exceeded,
  sentinel, is_transient, is_client_error, unwrap, bare_client_error,
}
use klayengo.Errors.Printing.{Printer, error_text}
use klayengo.Errors.Transient.{message, info, layered, is_transient-layered}

abbrev budget_info : ErrorInfo
budget_info = record {
  type_name = error_type_retry_budget_exceeded;
  message = "retry budget exceeded";
  request_id = "";
  method = "GET";
  url = "http://h/";
  attempt = pos 0;
  max_retries = pos 3;
  timestamp = pos 0;
  duration = pos 1;
  status_code = pos 0;
  endpoint = "h/";
}

is_transient-layered_example :
    is_transient (
      some (
        layered
          (info budget_info ∷ message "retry budget exceeded" ∷ [])
          (sentinel retry_budget_exceeded)))
    ≡ true
is_transient-layered_example =
    is_transient-layered (info budget_info ∷ message "retry budget exceeded" ∷ [])
      retry_budget_exceeded (λ e. cc)

unwraps_one_layer :
    unwrap (layered (info budget_info ∷ []) (sentinel retry_budget_exceeded))
    ≡ some (sentinel retry_budget_exceeded)
unfolding unwrap
unwraps_one_layer = refl

same_type_matches : is_client_error budget_info (bare_client_error budget_info) ≡ true
unfolding is_client_error
same_type_matches = refl

abbrev printer : Printer
printer = record {
  decimal = λ n. "3";
  rfc3339 = λ t. "";
  duration = λ d. "1ns";
  foreign_text = λ n. "";
}

prints_the_cause :
    error_text printer (
      client_error
        (record budget_info { request_id = "r1"; attempt = pos 3 })
        (sentinel cache_miss))
    ≡ "[r1] RetryBudgetExceededError: retry budget exceeded (klayengo: cache miss) (attempt 3/3)"
unfolding error_text
prints_the_cause = refl
