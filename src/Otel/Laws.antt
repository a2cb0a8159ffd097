-- ===== src/Otel/Laws.antt =====
-- v1/compat/otelwsgraphql/api.go: what spans an operation leaves, and how they are named.
use mathlib.Core.List.{append_assoc, append-nil}
use wsgraphql.Prelude.{
  suc, length, ℕ, ◌≡◌, refl, ◌∙◌, sym, ap, ◌⊎◌, inl, inr, String, String_discrete, Option, none,
  some, List, [], ◌∷◌, ◌++◌, map, arith,
}
use wsgraphql.Apollows.{PayloadOperation}
use wsgraphql.Apollows.Errors.{◌+s◌}
use wsgraphql.Interceptors.{Outcome, PayloadArgs, interceptor_operation_chain}
use wsgraphql.Interceptors.Laws.{present, nest, chained_lem}
use wsgraphql.Otel.{
  Otel, Traced, SpanCall, SpanStartOption, start, record_error, set_status, end_span, error, ok,
  KeyValue, OperationType, query, mutation, subscription, graphql_operation_type,
  graphql_operation_name, OperationConfig, close_span, operation_interceptor,
  default_span_name_resolver, default_span_attributes_resolver, tracer_for, with_attributes,
  span_name, span_attributes, or_else, type_from, name_from, attributes_from,
}

-- A span, as it is started.
pub record Span : Type 0 where
  pub tracer : ℕ
  pub id : ℕ
  pub name : String
  pub opts : List SpanStartOption

module _ {U E : Type 0} (otel : Otel U E) where
  -- How a span ends.
  abbrev pub closing : (span : ℕ) → Option E → List (SpanCall E)
  closing span none = set_status span ok "" ∷ end_span span ∷ []
  closing span (some err) =
      record_error span err ∷ set_status span error (otel.error_text err) ∷ end_span span ∷ []

  -- The first calls of the spans, from the outer to the inner.
  abbrev pub starts : List Span → List (SpanCall E)
  starts [] = []
  starts (s ∷ spans) = start s.tracer s.id s.name s.opts ∷ starts spans

  -- The last calls of the spans, from the inner to the outer, all with the same error.
  abbrev pub ends : Option E → List Span → List (SpanCall E)
  ends err [] = []
  ends err (s ∷ spans) = ends err spans ++ closing s.id err

  -- The error stays, and is what the span ends with.
  close_span_lem :
      (span : ℕ) (out : Outcome (Traced U E) E)
      → ((close_span otel span out).0.calls ≡ out.0.calls ++ closing span out.1)
        × ((close_span otel span out).1 ≡ out.1)
  unfolding close_span
  close_span_lem span (w, none) = (refl, refl)
  close_span_lem span (w, some err) = (refl, refl)

  abbrev pub Handler : Type 0
  Handler = PayloadArgs (Traced U E) PayloadOperation → Outcome (Traced U E) E

  -- What a call `out` with `args` adds around the call of `handler` with `args'`: the spans are
  -- started before it, and ended after it with its error, which is also what `out` returns.
  abbrev pub Around :
      Handler
      → List Span
      → (args args' : PayloadArgs (Traced U E) PayloadOperation) → Outcome (Traced U E) E
      → Type 0
  Around handler spans args args' out =
      (args'.0.calls ≡ args.0.calls ++ starts spans)
      × (args'.2 ≡ args.2)
      × (out.0.calls ≡ (handler args').0.calls ++ ends (handler args').1 spans)
      × (out.1 ≡ (handler args').1)

  close_span-Around :
      (handler : Handler) (s : Span) (spans : List Span)
      (args inner args' : PayloadArgs (Traced U E) PayloadOperation) (out : Outcome (Traced U E) E)
      → inner.0.calls ≡ args.0.calls ++ start s.tracer s.id s.name s.opts ∷ []
      → inner.2 ≡ args.2
      → Around handler spans inner args' out
      → Around handler (s ∷ spans) args args' (close_span otel s.id out)
  close_span-Around handler s spans args inner args' out begun kept (before, payload, after, err) =
      let (closed, same) = close_span_lem s.id out in
      (
        rw (before, begun, append_assoc) refl,
        payload ∙ kept,
        rw (closed, after, err, append_assoc) refl,
        same ∙ err,
      )

  nest-Around :
      (configs : List OperationConfig) (handler : Handler)
      (args : PayloadArgs (Traced U E) PayloadOperation)
      → (spans : List Span) × (args' : PayloadArgs (Traced U E) PayloadOperation) × (length spans
          ≡ length configs)
        × Around handler spans args args'
            (nest (present (map (λ c. some (operation_interceptor otel c)) configs)) handler args)
  unfolding operation_interceptor
  nest-Around [] handler args =
      ([], args, refl, (sym (append-nil _), refl, sym (append-nil _), refl))
  nest-Around (c ∷ configs) handler (w, ctx, payload) =
      let tracer = tracer_for otel c.tracer c.tracer_provider w.user ctx in
      let name = c.name_resolver ctx payload in
      let opts = with_attributes (c.attributes_resolver ctx payload) ∷ c.start_span_options in
      let (u, ctx', id) = otel.started w.user tracer ctx name opts in
      let inner : PayloadArgs (Traced U E) PayloadOperation =
        (record { calls = w.calls ++ start tracer id name opts ∷ []; user = u }, ctx', payload) in
      let (spans, args', many, around) = nest-Around configs handler inner in
      let s : Span = record { tracer = tracer; id = id; name = name; opts = opts } in
      (
        s ∷ spans,
        args',
        ap suc many,
        close_span-Around handler s spans (w, ctx, payload) inner args' _ refl refl around,
      )

  -- However many interceptors with spans are chained around a handler, the handler gets the payload of
  -- the chain, after one span was started for each interceptor. After the handler's own calls the spans
  -- are ended, the inner before the outer, each with the handler's error: that error recorded and the
  -- status `error` if there is one, and the status `ok` if not. The chain returns that error.
  pub chained_spans_nest :
      (configs : List OperationConfig) (handler : Handler)
      (args : PayloadArgs (Traced U E) PayloadOperation)
      → (spans : List Span) × (args' : PayloadArgs (Traced U E) PayloadOperation) × (length spans
          ≡ length configs)
        × Around handler spans args args' (
            interceptor_operation_chain
              (map (λ c. some (operation_interceptor otel c)) configs)
              args
              handler)
  unfolding interceptor_operation_chain
  chained_spans_nest configs handler args =
      rw (chained_lem (map (λ c. some (operation_interceptor otel c)) configs) args handler)
        (nest-Around configs handler args)

-- What `queryRegex` gives: nothing, or the match and its two groups, the first of which is one of
-- three words.
pub data IsMatch : List String → Type 0 where
  unmatched : IsMatch []
  matched :
      (whole kind part : String)
      → ((kind ≡ "query") ⊎ ((kind ≡ "mutation") ⊎ (kind ≡ "subscription")))
      → IsMatch (whole ∷ kind ∷ part ∷ [])

abbrev pub type_text : OperationType → String
type_text query = "query"
type_text mutation = "mutation"
type_text subscription = "subscription"

-- A name made of the attributes.
abbrev pub name_of : List KeyValue → String
name_of (graphql_operation_type t ∷ graphql_operation_name n ∷ _) =
    "gql." +s type_text t +s "." +s n
name_of (graphql_operation_type t ∷ _) = "gql." +s type_text t
name_of _ = ""

named :
    (t : OperationType) (n document : String)
    → span_name (type_text t) n ≡ name_of (span_attributes t n document)
unfolding span_name span_attributes
named t n document = ground arith

parts_agree :
    (name document : String) (parts : List String)
    → IsMatch parts
    → name_from name parts ≡ name_of (attributes_from name document parts)
unfolding name_from attributes_from type_from String_discrete
parts_agree name document _ unmatched = named query name document
parts_agree name document _ (matched whole kind part (inl q)) =
    rw q (named query (or_else name part) document)
parts_agree name document _ (matched whole kind part (inr (inl m))) =
    rw m (named mutation (or_else name part) document)
parts_agree name document _ (matched whole kind part (inr (inr s))) =
    rw s (named subscription (or_else name part) document)

module _ {U E : Type 0} (otel : Otel U E) where
  -- If the regular expression matches as it says, then the default name of a span is made of the
  -- type and the name that its default attributes give.
  pub default_resolvers_agree :
      (ctx : ℕ) (payload : PayloadOperation)
      → IsMatch (otel.find_string_submatch payload.query)
      → default_span_name_resolver otel ctx payload
        ≡ name_of (default_span_attributes_resolver otel ctx payload)
  unfolding default_span_name_resolver default_span_attributes_resolver
  default_resolvers_agree ctx payload m = parts_agree payload.operation_name payload.query _ m
