-- ===== src/Websocket/Keeps.antt =====
-- What the handlers leave alone: they only add contexts, and set values on them.
use wsgraphql.Prelude.{
  ℕ, ◌≤◌, ◌≡◌, refl, Bool, true, false, Option, none, some, arith, length, ◌∙◌, Bool-cases, inl,
  inr, ◌&&◌, if◌then◌else◌,
}
use wsgraphql.Mutable
use wsgraphql.Mutable.{Node, Store}
use wsgraphql.Mutable.Cancellation.{length-update_at}
use wsgraphql.Context.{
  Contexts, Key, Value, put, default_mutcontext, request_context_of, operation_context_of,
  context_operation_stopped,
}
use wsgraphql.Apollows.{Operation, Error, Result, Body, apollows, result_error}
use wsgraphql.Formatting.{Gqlerrors}
use wsgraphql.Websocket.State.{Request}
use wsgraphql.Websocket.Outgoing.{
  set_stopped, write_websocket_message, write_websocket_data, handle_error, is_error, drops_stopped,
  is_graphql_ws,
}

abbrev pub size : Contexts → ℕ
size s = length s.nodes

pub size-put : (s : Contexts) (a : ℕ) (k : Key) (v : Value) → size (put s a k v) ≡ size s
unfolding put Mutable.set
size-put s a k v = length-update_at a _ s.nodes

pub size-cancel : (s : Contexts) (a : ℕ) → size (Mutable.cancel s a) ≡ size s
unfolding Mutable.cancel
size-cancel s a = length-update_at a _ s.nodes

size-default_mutcontext :
    (s : Contexts) (ctx : ℕ) (o : Option ℕ) → size s ≤ size (default_mutcontext s ctx o).0
unfolding default_mutcontext Mutable.new_mutable_context
size-default_mutcontext s ctx none = omega arith
size-default_mutcontext s ctx (some a) = omega arith

pub size-request_context_of : (s : Contexts) (ctx : ℕ) → size s ≤ size (request_context_of s ctx).0
unfolding request_context_of
size-request_context_of s ctx = size-default_mutcontext s ctx _

pub size-operation_context_of :
    (s : Contexts) (ctx : ℕ) → size s ≤ size (operation_context_of s ctx).0
unfolding operation_context_of
size-operation_context_of s ctx = size-default_mutcontext s ctx _

pub size-set_stopped : (s : Contexts) (ctx : ℕ) → size s ≤ size (set_stopped s ctx)
unfolding set_stopped
size-set_stopped s ctx = omega (arith, size-put, size-operation_context_of s ctx)

-- From `req` to `req'` at most the contexts have changed, and none has gone.
pub record Keeps {F : Type 0} (req req' : Request F) : Type 0 where
  pub same_operations : req'.operations ≡ req.operations
  pub same_protocol : req'.protocol ≡ req.protocol
  pub same_wg : req'.wg ≡ req.wg
  pub same_init : req'.init ≡ req.init
  pub same_closed : req'.closed ≡ req.closed
  pub same_panicked : req'.panicked ≡ req.panicked
  pub same_outgoing : req'.outgoing ≡ req.outgoing
  pub grows : size req.contexts ≤ size req'.contexts

module _ {F : Type 0} where
  pub Keeps-contexts :
      (req : Request F) (s : Contexts)
      → size req.contexts ≤ size s
      → Keeps req (record req { contexts = s })
  Keeps-contexts req s h = record {
    same_operations = refl;
    same_protocol = refl;
    same_wg = refl;
    same_init = refl;
    same_closed = refl;
    same_panicked = refl;
    same_outgoing = refl;
    grows = h;
  }

  pub Keeps-refl : (req : Request F) → Keeps req req
  Keeps-refl req = Keeps-contexts req req.contexts (omega arith)

  pub Keeps-trans : {a b c : Request F} → Keeps a b → Keeps b c → Keeps a c
  Keeps-trans p q = record {
    same_operations = q.same_operations ∙ p.same_operations;
    same_protocol = q.same_protocol ∙ p.same_protocol;
    same_wg = q.same_wg ∙ p.same_wg;
    same_init = q.same_init ∙ p.same_init;
    same_closed = q.same_closed ∙ p.same_closed;
    same_panicked = q.same_panicked ∙ p.same_panicked;
    same_outgoing = q.same_outgoing ∙ p.same_outgoing;
    grows = omega (arith, p.grows, q.grows);
  }

  pub write_websocket_message-Keeps :
      (req : Request F) (ctx : ℕ) (t : Operation) (b : Body F)
      → Keeps req (write_websocket_message req ctx t b).0
  unfolding write_websocket_message
  write_websocket_message-Keeps req ctx t b = Keeps-contexts req _ (grown (is_error t))
    where
      grown :
          (e : Bool)
          → size req.contexts
            ≤ size
                (request_context_of
                  (if e then set_stopped req.contexts ctx else req.contexts)
                  ctx).0
      grown true = omega (
        arith,
        size-set_stopped req.contexts ctx,
        size-request_context_of (set_stopped req.contexts ctx) ctx,
      )
      grown false = size-request_context_of req.contexts ctx

  pub write_websocket_data-Keeps :
      (req : Request F) (ctx : ℕ) (res : Result F) → Keeps req (write_websocket_data req ctx res).0
  unfolding write_websocket_data
  write_websocket_data-Keeps req ctx res =
      elim (Bool-cases (drops_stopped req.protocol && context_operation_stopped req.contexts ctx)) [
        | inl e ↦ rw (e, write_websocket_data) (Keeps-refl req)
        | inr e ↦ rw (e, write_websocket_data) (write_websocket_message-Keeps req ctx _ _)
      ]

  pub handle_error-Keeps :
      (gql : Gqlerrors F) (req : Request F) (ctx : ℕ) (err : Error F)
      → Keeps req (handle_error gql req ctx err).0
  unfolding handle_error
  handle_error-Keeps gql req ctx (apollows awerr) = elim (Bool-cases (is_graphql_ws req.protocol)) [
    | inl e ↦ rw e (write_websocket_message-Keeps req ctx _ _)
    | inr e ↦ rw e (Keeps-refl req)
  ]
  handle_error-Keeps gql req ctx (result_error content errors) =
      write_websocket_message-Keeps req ctx _ _
  handle_error-Keeps gql req ctx _ = write_websocket_message-Keeps req ctx _ _
