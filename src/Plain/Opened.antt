-- ===== src/Plain/Opened.antt =====
-- v1/server_plain.go, v1/context.go: the context of an operation inside its request.
use wsgraphql.Prelude.{ℕ, ◌<◌, ◌≡◌, ◌≢◌, refl, ◌∙◌, true, false, none, some, [], length, arith}
use wsgraphql.Prelude.Dict
use wsgraphql.Mutable.{Node, node_at, new_mutable_context}
use wsgraphql.Mutable.Values.{value_inherited, node_at-set_ne, node_at-set_self}
use wsgraphql.Context.{
  Contexts, Key, Value, Key_discrete, get, put, request_context, operation_context,
  http_response_started, mutable_context, boolean, context_http_response_started,
}
use wsgraphql.Context.Laws.{IsRegistered, get-put_self, get-put_ne, get-new, length-put}

-- `ctx` is the context of an operation, made in the request whose context is `reqctx`, and does not
-- say itself whether the response was started.
pub record Opened (s : Contexts) (ctx reqctx : ℕ) : Type 0 where
  pub node : Node Key Value
  pub found : node_at ctx s.nodes ≡ some node
  pub child : node.parent ≡ some reqctx
  pub older : reqctx < ctx
  pub within : reqctx < length s.nodes
  pub silent : Dict.lookup Key_discrete http_response_started node.values ≡ none
  pub registered : get s ctx request_context ≡ mutable_context reqctx

unfoldable pub started : Contexts → ℕ → Contexts
started s reqctx = put s reqctx http_response_started (boolean true)

pub started-Opened :
    (s : Contexts) (ctx reqctx : ℕ) → Opened s ctx reqctx → Opened (started s reqctx) ctx reqctx
unfolding started
started-Opened s ctx reqctx o = record {
  node = o.node;
  found =
      unfold put in
      node_at-set_ne Key_discrete s reqctx ctx _ _ (λ e. omega (arith, o.older, e)) ∙ o.found;
  child = o.child;
  older = o.older;
  within = omega (arith, o.within, length-put s reqctx http_response_started (boolean true));
  silent = o.silent;
  registered =
      get-put_ne s reqctx ctx http_response_started request_context _ (λ e. cc) ∙ o.registered;
}

pub started-shows :
    (s : Contexts) (ctx reqctx : ℕ)
    → Opened s ctx reqctx
    → context_http_response_started (started s reqctx) ctx ≡ true
unfolding started context_http_response_started get
started-shows s ctx reqctx o =
    let o' = started-Opened s ctx reqctx o in
    rw
      (
        value_inherited Key_discrete (started s reqctx) ctx reqctx http_response_started o'.node
            o'.found o'.child o'.older o'.silent,
        get-put_self s reqctx http_response_started (boolean true) o.within,
      )
      refl

pub set-Opened :
    (s : Contexts) (ctx reqctx : ℕ) (k : Key) (v : Value)
    → k ≢ http_response_started
    → k ≢ request_context
    → Opened s ctx reqctx
    → Opened (put s ctx k v) ctx reqctx
set-Opened s ctx reqctx k v h h' o = record {
  node = record o.node { values = Dict.insert Key_discrete k v o.node.values };
  found = unfold put in node_at-set_self Key_discrete s ctx k v o.node o.found;
  child = o.child;
  older = o.older;
  within = omega (arith, o.within, length-put s ctx k v);
  silent = Dict.lookup-insert_ne Key_discrete k http_response_started v o.node.values h ∙ o.silent;
  registered = get-put_ne s ctx ctx k request_context v h' ∙ o.registered;
}

-- The context that `servePlainRequest` makes for its operation is such a one.
pub operation-Opened :
    (s : Contexts) (reqctx : ℕ)
    → get s reqctx request_context ≡ mutable_context reqctx
    → reqctx < length s.nodes
    → let (t, opctx) = new_mutable_context s (some reqctx) in
      let opened = put t opctx operation_context (mutable_context opctx) in
      Opened opened opctx reqctx × IsRegistered opened opctx
unfolding new_mutable_context
operation-Opened s reqctx reg below = (
  set-Opened t opctx reqctx operation_context (mutable_context opctx) (λ e. cc) (λ e. cc)
      (record {
        node = record { parent = some reqctx; values = []; cancelled = false };
        found = unfold node_at in ground arith;
        child = refl;
        older = below;
        within = omega (arith, below);
        silent = unfold Dict.lookup in refl;
        registered = get-new s reqctx request_context ∙ reg;
      }),
  get-put_self t opctx operation_context (mutable_context opctx) (omega arith),
)
  where
    t : Contexts
    t = (new_mutable_context s (some reqctx)).0

    opctx : ℕ
    opctx = length s.nodes
