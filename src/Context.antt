-- ===== src/Context.antt =====
-- v1/context.go: the keys under which the server stores its state in contexts, and the readers.
--
-- A value is `interface{}`: `nil`, or a value of one of the types that the readers assert. What lies
-- behind a pointer or an interface is named by a number; a typed pointer may be nil (`none`).
pub mod Laws
use wsgraphql.Prelude.{ℕ, String, ◌≡◌, Bool, true, false, Option, none, some}
use wsgraphql.Mutable
use wsgraphql.Mutable.{Store}

-- The twelve `ContextKey…` variables.
pub data Key : Type 0 where
  request_context operation_context operation_stopped operation_executed operation_id : Key
  operation_params ast subscription http_request http_response_writer : Key
  http_response_started websocket_connection : Key

unfoldable pub Key_discrete : Discrete Key
Key_discrete = hlevel

pub data Value : Type 0 where
  nil : Value
  boolean : Bool → Value
  text : String → Value
  mutable_context : ℕ → Value
  params : Option ℕ → Value
  document : Option ℕ → Value
  request : Option ℕ → Value
  response_writer : ℕ → Value
  connection : ℕ → Value
  other : ℕ → Value

abbrev pub Contexts : Type 0
Contexts = Store Key Value

unfoldable pub get : Contexts → ℕ → Key → Value
get s ctx k = Mutable.value Key_discrete s ctx k

unfoldable pub put : Contexts → ℕ → Key → Value → Contexts
put s ctx k v = Mutable.set Key_discrete s ctx k v

-- The type assertions `v.(T)`, nil included, with the reader's answer if they fail.
abbrev pub as_context : Value → Option ℕ
as_context (mutable_context a) = some a
as_context _ = none

abbrev pub as_boolean : Value → Bool
as_boolean (boolean b) = b
as_boolean _ = false

abbrev pub as_text : Value → String
as_text (text s) = s
as_text _ = ""

abbrev pub as_params : Value → Option ℕ
as_params (params p) = p
as_params _ = none

abbrev pub as_document : Value → Option ℕ
as_document (document d) = d
as_document _ = none

abbrev pub as_request : Value → Option ℕ
as_request (request r) = r
as_request _ = none

abbrev pub as_response_writer : Value → Option ℕ
as_response_writer (response_writer w) = some w
as_response_writer _ = none

abbrev pub as_connection : Value → Option ℕ
as_connection (connection c) = some c
as_connection _ = none

-- `defaultMutcontext`
unfoldable pub default_mutcontext : Contexts → ℕ → Option ℕ → Contexts × ℕ
default_mutcontext s ctx (some a) = (s, a)
default_mutcontext s ctx none = Mutable.new_mutable_context s (some ctx)

-- `RequestContext`
unfoldable pub request_context_of : Contexts → ℕ → Contexts × ℕ
unfolding get default_mutcontext
request_context_of s ctx = default_mutcontext s ctx (as_context (get s ctx request_context))

-- `OperationContext`
unfoldable pub operation_context_of : Contexts → ℕ → Contexts × ℕ
unfolding get default_mutcontext
operation_context_of s ctx = default_mutcontext s ctx (as_context (get s ctx operation_context))

-- `ContextOperationStopped`
unfoldable pub context_operation_stopped : Contexts → ℕ → Bool
unfolding get
context_operation_stopped s ctx = as_boolean (get s ctx operation_stopped)

-- `ContextOperationExecuted`
unfoldable pub context_operation_executed : Contexts → ℕ → Bool
unfolding get
context_operation_executed s ctx = as_boolean (get s ctx operation_executed)

-- `ContextOperationID`
unfoldable pub context_operation_id : Contexts → ℕ → String
unfolding get
context_operation_id s ctx = as_text (get s ctx operation_id)

-- `ContextOperationParams`; `none` stands for the empty `graphql.Params`.
unfoldable pub context_operation_params : Contexts → ℕ → Option ℕ
unfolding get
context_operation_params s ctx = as_params (get s ctx operation_params)

-- `ContextAST`
unfoldable pub context_ast : Contexts → ℕ → Option ℕ
unfolding get
context_ast s ctx = as_document (get s ctx ast)

-- `ContextSubscription`
unfoldable pub context_subscription : Contexts → ℕ → Bool
unfolding get
context_subscription s ctx = as_boolean (get s ctx subscription)

-- `ContextHTTPRequest`
unfoldable pub context_http_request : Contexts → ℕ → Option ℕ
unfolding get
context_http_request s ctx = as_request (get s ctx http_request)

-- `ContextHTTPResponseWriter`
unfoldable pub context_http_response_writer : Contexts → ℕ → Option ℕ
unfolding get
context_http_response_writer s ctx = as_response_writer (get s ctx http_response_writer)

-- `ContextHTTPResponseStarted`
unfoldable pub context_http_response_started : Contexts → ℕ → Bool
unfolding get
context_http_response_started s ctx = as_boolean (get s ctx http_response_started)

-- `ContextWebsocketConnection`
unfoldable pub context_websocket_connection : Contexts → ℕ → Option ℕ
unfolding get
context_websocket_connection s ctx = as_connection (get s ctx websocket_connection)
