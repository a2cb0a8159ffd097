-- ===== src/Otel/Tests.antt =====
-- An operation that fails, inside two interceptors.
use wsgraphql.Prelude.{ℕ, ◌≡◌, length, refl, inl, inr, String, none, some, List, [], ◌∷◌, map}
use wsgraphql.Apollows.{PayloadOperation}
use wsgraphql.Interceptors.{Outcome, PayloadArgs, interceptor_operation_chain}
use wsgraphql.Otel.{
  Otel, Traced, OperationConfig, empty_operation_config, operation_interceptor,
  default_span_name_resolver, default_span_attributes_resolver,
}
use wsgraphql.Otel.Laws.{
  Span, Around, name_of, matched, chained_spans_nest, default_resolvers_agree,
}

abbrev otel : Otel ℕ String
otel = record {
  tracer_of = λ provider name version. provider;
  span_provider = λ u ctx. none;
  global_provider = λ u. 0;
  started = λ u tracer ctx name opts. (u, ctx, u);
  find_string_submatch = λ query. "mutation Add" ∷ "mutation" ∷ "Add" ∷ [];
  error_text = λ e. e;
}

abbrev payload : PayloadOperation
payload = record {
  variables = 0;
  extensions = 0;
  query = "mutation Add { add }";
  operation_name = "";
}

abbrev failing : PayloadArgs (Traced ℕ String) PayloadOperation → Outcome (Traced ℕ String) String
failing (w, ctx, p) = (w, some "boom")

abbrev quiet : Traced ℕ String
quiet = record { calls = []; user = 3 }

abbrev configs : List OperationConfig
configs =
    empty_operation_config otel ∷ record (empty_operation_config otel) { tracer = some 1 } ∷ []

chained_spans_nest_example :
    (spans : List Span) × (args' : PayloadArgs (Traced ℕ String) PayloadOperation) × (length spans
      ≡ 2)
    × Around otel failing spans
        (quiet, 0, payload)
        args'
        (interceptor_operation_chain
          (map (λ c. some (operation_interceptor otel c)) configs)
          (quiet, 0, payload)
          failing)
chained_spans_nest_example = chained_spans_nest otel configs failing (quiet, 0, payload)

default_resolvers_agree_example :
    default_span_name_resolver otel 0 payload
    ≡ name_of (default_span_attributes_resolver otel 0 payload)
default_resolvers_agree_example =
    default_resolvers_agree otel 0 payload
      (matched "mutation Add" "mutation" "Add" (inr (inl refl)))
