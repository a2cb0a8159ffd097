-- ===== src/Interceptors.antt =====
-- v1/interceptors.go: interceptors around the stages of a request.
--
-- What Go does by effect is part of a stage's arguments and result: a world `W` before and after
-- the call. `I` and `P` are the payloads of a connection and of an operation, `C` the channel of
-- results, `E` the errors. An interceptor may be nil. The five copies of the recursion on an index
-- are instances of one, which has as much fuel as the list is long, and one more.
pub mod Laws
use wsgraphql.Prelude.{ℕ, zero, suc, length, drop, get_elem?, Option, none, some, List, [], ◌∷◌}

abbrev pub Interceptor : Type 0 → Type 0 → Type 0
Interceptor A R = A → (A → R) → R

module _ {A R : Type 0} where
  -- `for idx < len(interceptors) && interceptors[idx] == nil { idx++ }`, over the rest of the list
  -- from `idx` on.
  unfoldable pub skip_nil : (rest : List (Option (Interceptor A R))) → (idx : ℕ) → ℕ
  skip_nil [] idx = idx
  skip_nil (none ∷ rest) idx = skip_nil rest (suc idx)
  skip_nil (some i ∷ rest) idx = idx

  -- `if idx == len(interceptors) { return handler }`, or the call of `interceptors[idx]`, which is
  -- not nil after the loop.
  unfoldable pub call_at : Option (Option (Interceptor A R)) → (next handler : A → R) → A → R
  call_at none next handler = handler
  call_at (some none) next handler = handler
  call_at (some (some i)) next handler = λ args. i args next

  unfoldable pub chain :
      (fuel : ℕ) → List (Option (Interceptor A R)) → (idx : ℕ) → (handler : A → R) → A → R
  chain zero interceptors idx handler = handler
  chain (suc n) interceptors idx handler =
      let at = skip_nil (drop idx interceptors) idx in
      call_at (get_elem? interceptors at) (chain n interceptors (suc at) handler) handler

  unfoldable pub chained : List (Option (Interceptor A R)) → Interceptor A R
  chained interceptors =
      λ args handler. chain (suc (length interceptors)) interceptors 0 handler args

-- The arguments after the world are the context, and a response writer and a request, or a payload.
abbrev pub HttpRequestArgs : Type 0 → Type 0
HttpRequestArgs W = W × ℕ × ℕ × ℕ

abbrev pub PayloadArgs : Type 0 → Type 0 → Type 0
PayloadArgs W P = W × ℕ × P

-- A world and an error, or nil.
abbrev pub Outcome : Type 0 → Type 0 → Type 0
Outcome W E = W × Option E

-- `if err == nil { err = handler(…) }`, or `if err != nil { return err }` before the rest.
unfoldable pub unless_failed : {W E : Type 0} → (W → Outcome W E) → Outcome W E → Outcome W E
unless_failed handler (w, none) = handler w
unless_failed handler (w, some err) = (w, some err)

-- A world, and a channel with an error, or nil.
abbrev pub ExecuteOutcome : Type 0 → Type 0 → Type 0 → Type 0
ExecuteOutcome W C E = W × Option C × Option E

abbrev pub InterceptorHttpRequest : Type 0 → Type 0 → Type 0
InterceptorHttpRequest W E = Interceptor (HttpRequestArgs W) (Outcome W E)

abbrev pub InterceptorInit : Type 0 → Type 0 → Type 0 → Type 0
InterceptorInit W I E = Interceptor (PayloadArgs W (Option I)) (Outcome W E)

abbrev pub InterceptorOperation : Type 0 → Type 0 → Type 0 → Type 0
InterceptorOperation W P E = Interceptor (PayloadArgs W P) (Outcome W E)

abbrev pub InterceptorOperationParse : Type 0 → Type 0 → Type 0 → Type 0
InterceptorOperationParse W P E = Interceptor (PayloadArgs W P) (Outcome W E)

abbrev pub InterceptorOperationExecute : Type 0 → Type 0 → Type 0 → Type 0 → Type 0
InterceptorOperationExecute W P C E = Interceptor (PayloadArgs W P) (ExecuteOutcome W C E)

-- `InterceptorHTTPRequestChain`
unfoldable pub interceptor_http_request_chain :
    {W E : Type 0} → List (Option (InterceptorHttpRequest W E)) → InterceptorHttpRequest W E
interceptor_http_request_chain = chained

-- `InterceptorInitChain`
unfoldable pub interceptor_init_chain :
    {W I E : Type 0} → List (Option (InterceptorInit W I E)) → InterceptorInit W I E
interceptor_init_chain = chained

-- `InterceptorOperationChain`
unfoldable pub interceptor_operation_chain :
    {W P E : Type 0} → List (Option (InterceptorOperation W P E)) → InterceptorOperation W P E
interceptor_operation_chain = chained

-- `InterceptorOperationParseChain`
unfoldable pub interceptor_operation_parse_chain :
    {W P E : Type 0}
    → List (Option (InterceptorOperationParse W P E))
    → InterceptorOperationParse W P E
interceptor_operation_parse_chain = chained

-- `InterceptorOperationExecuteChain`
unfoldable pub interceptor_operation_execute_chain :
    {W P C E : Type 0}
    → List (Option (InterceptorOperationExecute W P C E))
    → InterceptorOperationExecute W P C E
interceptor_operation_execute_chain = chained

-- `Interceptors`
pub record Interceptors (W I P C E : Type 0) : Type 0 where
  pub http_request : Option (InterceptorHttpRequest W E)
  pub init : Option (InterceptorInit W I E)
  pub operation : Option (InterceptorOperation W P E)
  pub operation_parse : Option (InterceptorOperationParse W P E)
  pub operation_execute : Option (InterceptorOperationExecute W P C E)

-- What `initInterceptors` puts in place of a missing interceptor.
unfoldable pub pass_through : {A R : Type 0} → Interceptor A R
pass_through args handler = handler args

-- The default for HTTP requests; `write_error` is `WriteError`.
unfoldable pub reported :
    {W E : Type 0} → (write_error : W → ℕ → ℕ → E → W) → ℕ → ℕ → Outcome W E → Outcome W E
reported write_error ctx writer (w, none) = (w, none)
reported write_error ctx writer (w, some err) = (write_error w ctx writer err, some err)

unfoldable pub report_error :
    {W E : Type 0} → (write_error : W → ℕ → ℕ → E → W) → InterceptorHttpRequest W E
report_error write_error (w, ctx, writer, request) handler =
    reported write_error ctx writer (handler (w, ctx, writer, request))

unfoldable pub or_default {ℓ} : {A : Type ℓ} → A → Option A → Option A
or_default d none = some d
or_default d (some a) = some a

-- `initInterceptors`
unfoldable pub init_interceptors :
    {W I P C E : Type 0}
    → (write_error : W → ℕ → ℕ → E → W) → Interceptors W I P C E
    → Interceptors W I P C E
init_interceptors write_error c = record {
  http_request = or_default (report_error write_error) c.http_request;
  init = or_default pass_through c.init;
  operation = or_default pass_through c.operation;
  operation_parse = or_default pass_through c.operation_parse;
  operation_execute = or_default pass_through c.operation_execute;
}
