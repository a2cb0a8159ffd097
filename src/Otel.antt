-- ===== src/Otel.antt =====
-- v1/compat/otelwsgraphql/api.go: the interceptor that reports an operation as a span.
--
-- OpenTelemetry and the regular expression are parameters. A tracer, a provider and a span are
-- named by numbers; the calls on them stand in the world, oldest first, beside the state `U` of
-- all else. An option of a span is its attributes, its kind, or another, named by a number.
pub mod Laws
mod Tests
use wsgraphql.Prelude.{ℕ, String, String_discrete, Option, none, some, List, [], ◌∷◌, ◌++◌, ite}
use wsgraphql.Apollows.{PayloadOperation}
use wsgraphql.Apollows.Errors.{◌+s◌}
use wsgraphql.Interceptors.{Outcome, InterceptorOperation}

pub data OperationType : Type 0 where
  query mutation subscription : OperationType

-- `attribute.KeyValue`: those of `semconv` that are used here, or another.
pub data KeyValue : Type 0 where
  graphql_operation_type : OperationType → KeyValue
  graphql_operation_name : String → KeyValue
  graphql_document : String → KeyValue
  other : ℕ → KeyValue

pub data SpanStartOption : Type 0 where
  with_attributes : List KeyValue → SpanStartOption
  span_kind_server : SpanStartOption
  other : ℕ → SpanStartOption

pub data Code : Type 0 where
  error ok : Code

-- A call on a tracer or a span; `start` is by the tracer, and gives the span.
pub data SpanCall (E : Type 0) : Type 0 where
  start : (tracer span : ℕ) → (name : String) → List SpanStartOption → SpanCall E
  record_error : (span : ℕ) → E → SpanCall E
  set_status : (span : ℕ) → Code → String → SpanCall E
  end_span : (span : ℕ) → SpanCall E

pub record Traced (U E : Type 0) : Type 0 where
  pub calls : List (SpanCall E)
  pub user : U

-- What OpenTelemetry and `regexp` provide: `provider.Tracer`; the provider of the span in a context,
-- if that is valid; the global provider; the context and the span that `Start` gives;
-- `queryRegex.FindStringSubmatch`; `err.Error()`.
pub record Otel (U E : Type 0) : Type 0 where
  pub tracer_of : (provider : ℕ) → (name version : String) → ℕ
  pub span_provider : U → (ctx : ℕ) → Option ℕ
  pub global_provider : U → ℕ
  pub started : U → (tracer ctx : ℕ) → String → List SpanStartOption → U × ℕ × ℕ
  pub find_string_submatch : String → List String
  pub error_text : E → String

-- `operationConfig`
pub record OperationConfig : Type 0 where
  pub name_resolver : ℕ → PayloadOperation → String
  pub attributes_resolver : ℕ → PayloadOperation → List KeyValue
  pub tracer : Option ℕ
  pub tracer_provider : Option ℕ
  pub start_span_options : List SpanStartOption

abbrev pub OperationOption : Type 0
OperationOption = OperationConfig → OperationConfig

-- `WithTracer`; the tracer may be nil.
unfoldable pub with_tracer : Option ℕ → OperationOption
with_tracer tracer c = record c { tracer = tracer }

-- `WithTracerProvider`
unfoldable pub with_tracer_provider : Option ℕ → OperationOption
with_tracer_provider provider c = record c { tracer_provider = provider }

-- `WithStartSpanOptions`
unfoldable pub with_start_span_options : List SpanStartOption → OperationOption
with_start_span_options options c = record c { start_span_options = options }

-- `WithSpanNameResolver`
unfoldable pub with_span_name_resolver : (ℕ → PayloadOperation → String) → OperationOption
with_span_name_resolver resolver c = record c { name_resolver = resolver }

-- `WithSpanAttributesResolver`
unfoldable pub with_span_attributes_resolver :
    (ℕ → PayloadOperation → List KeyValue) → OperationOption
with_span_attributes_resolver resolver c = record c { attributes_resolver = resolver }

-- The last lines of `DefaultSpanNameResolver`.
unfoldable pub span_name : (kind name : String) → String
span_name kind name = ite (String_discrete name "") ("gql." +s kind) ("gql." +s kind +s "." +s name)

-- `if name == "" { name = parts[2] }`
unfoldable pub or_else : (name part : String) → String
or_else name part = ite (String_discrete name "") part name

unfoldable pub name_from : (name : String) → (parts : List String) → String
unfolding span_name or_else
name_from name (whole ∷ kind ∷ part ∷ []) = span_name kind (or_else name part)
name_from name _ = span_name "query" name

-- The `switch` over `parts[1]`.
unfoldable pub type_from : String → OperationType
type_from kind =
    ite (String_discrete kind "subscription") subscription
      (ite (String_discrete kind "mutation") mutation query)

-- The last lines of `DefaultSpanAttributesResolver`.
unfoldable pub span_attributes : OperationType → (name document : String) → List KeyValue
span_attributes type name document =
    graphql_operation_type type
      ∷ ite (String_discrete name "") [] (graphql_operation_name name ∷ [])
    ++ graphql_document document ∷ []

unfoldable pub attributes_from : (name document : String) → (parts : List String) → List KeyValue
unfolding span_attributes or_else type_from
attributes_from name document (whole ∷ kind ∷ part ∷ []) =
    span_attributes (type_from kind) (or_else name part) document
attributes_from name document _ = span_attributes query name document

module _ {U E : Type 0} (otel : Otel U E) where
  -- `DefaultSpanNameResolver`
  unfoldable pub default_span_name_resolver : ℕ → PayloadOperation → String
  default_span_name_resolver ctx payload =
      name_from payload.operation_name (otel.find_string_submatch payload.query)

  -- `DefaultSpanAttributesResolver`
  unfoldable pub default_span_attributes_resolver : ℕ → PayloadOperation → List KeyValue
  default_span_attributes_resolver ctx payload =
      attributes_from payload.operation_name payload.query (otel.find_string_submatch payload.query)

  -- `var c operationConfig`. Its nil resolvers, which are replaced before any call, give nothing.
  abbrev pub empty_operation_config : OperationConfig
  empty_operation_config = record {
    name_resolver = λ ctx payload. "";
    attributes_resolver = λ ctx payload. [];
    tracer = none;
    tracer_provider = none;
    start_span_options = [];
  }

  unfoldable pub default_options : List OperationOption
  default_options =
      with_span_name_resolver default_span_name_resolver
      ∷ with_span_attributes_resolver default_span_attributes_resolver
      ∷ with_start_span_options (span_kind_server ∷ [])
      ∷ []

  -- `newTracer`
  unfoldable pub new_tracer : (provider : ℕ) → ℕ
  new_tracer provider =
      otel.tracer_of provider "github.com/eientei/wsgraphql/v1/compat/otelwsgraphql" "1.0.0"

  provider_of : Option ℕ → U → ℕ
  provider_of none u = otel.global_provider u
  provider_of (some provider) u = provider

  tracer_from : (provider : Option ℕ) → U → (ctx : ℕ) → ℕ
  unfolding provider_of
  tracer_from none u ctx = new_tracer (provider_of (otel.span_provider u ctx) u)
  tracer_from (some provider) u ctx = new_tracer provider

  -- The tracer of one operation.
  unfoldable pub tracer_for : (tracer provider : Option ℕ) → U → (ctx : ℕ) → ℕ
  unfolding tracer_from
  tracer_for none provider u ctx = tracer_from provider u ctx
  tracer_for (some tracer) provider u ctx = tracer

  -- What follows the handler's call.
  unfoldable pub close_span : (span : ℕ) → Outcome (Traced U E) E → Outcome (Traced U E) E
  close_span span (w, some err) = (
    record w {
      calls =
          w.calls
          ++ record_error span err
            ∷ set_status span error (otel.error_text err)
            ∷ end_span span
            ∷ [];
    },
    some err,
  )
  close_span span (w, none) =
      (record w { calls = w.calls ++ set_status span ok "" ∷ end_span span ∷ [] }, none)

  -- The function that `NewOperationInterceptor` returns.
  unfoldable pub operation_interceptor :
      OperationConfig → InterceptorOperation (Traced U E) PayloadOperation E
  operation_interceptor c (w, ctx, payload) handler =
      let tracer = tracer_for c.tracer c.tracer_provider w.user ctx in
      let opts = with_attributes (c.attributes_resolver ctx payload) ∷ c.start_span_options in
      let name = c.name_resolver ctx payload in
      let (u, ctx', span) = otel.started w.user tracer ctx name opts in
      close_span span (
        handler
          (record { calls = w.calls ++ start tracer span name opts ∷ []; user = u }, ctx', payload))

unfoldable pub apply_operation : List OperationOption → OperationConfig → OperationConfig
apply_operation [] c = c
apply_operation (o ∷ os) c = apply_operation os (o c)

module _ {U E : Type 0} (otel : Otel U E) where
  -- `NewOperationInterceptor`
  unfoldable pub new_operation_interceptor :
      List OperationOption → InterceptorOperation (Traced U E) PayloadOperation E
  new_operation_interceptor options =
      operation_interceptor otel
        (apply_operation (default_options otel ++ options) (empty_operation_config otel))
