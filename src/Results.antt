-- ===== src/Results.antt =====
-- v1/server.go: `processResult` and `processResults`, which the plain and the websocket requests
-- share.
--
-- `write` is the closure that the caller hands over, on a state `W` of the caller's, which holds the
-- contexts.
pub mod Laws
use wsgraphql.Prelude.{ℕ, true, if◌then◌else◌, Option, none, some, List, [], ◌∷◌, ◌++◌, map}
use wsgraphql.Context.{
  Contexts, operation_executed, boolean, put, operation_context_of, context_operation_stopped,
}
use wsgraphql.Apollows.{Error, formatted, result_error, Datum, failure, Result}
use wsgraphql.Formatting.{Gqlerrors, format_error}

module _ {F : Type 0} where
  unfoldable pub data_errors : Gqlerrors F → Datum F → List F
  data_errors gql (failure err) = format_error gql err ∷ []
  data_errors gql _ = []

  -- The result with its `Errors` replaced by `tgterrs`.
  unfoldable pub target_errors : Gqlerrors F → Result F → Result F
  target_errors gql res = record res {
    errors =
        data_errors gql res.content ++ map (λ src. format_error gql (formatted src)) res.errors;
  }

  unfoldable pub has_errors : Result F → List F → Option (Error F)
  has_errors res [] = none
  has_errors res (e ∷ es) = some (result_error res.content (e ∷ es))

  unfoldable pub after_write {ℓ} :
      {W : Type ℓ} → Result F → W × Option (Error F) → W × Option (Error F)
  after_write res (w, some err) = (w, some err)
  after_write res (w, none) = (w, has_errors res res.errors)

  -- `processResult`
  unfoldable pub process_result {ℓ} :
      {W : Type ℓ}
      → Gqlerrors F
      → (processor : Result F → Result F) → (write : W → Result F → W × Option (Error F)) → W
      → Result F
      → W × Option (Error F)
  process_result gql processor write w res =
      let r = target_errors gql (processor res) in after_write r (write w r)

-- A state that holds the contexts.
pub record Holder {ℓ} (W : Type ℓ) : Type ℓ where
  pub contexts : W → Contexts
  pub with_contexts : W → Contexts → W

-- What the `select` of `processResults` chooses, round by round: a result of `cres`, until that is
-- closed or `ctx.Done()` is chosen, with `ctx.Err()`. Before each choice others change the state.
pub data Channel {ℓ} (W : Type ℓ) (F : Type 0) : Type ℓ where
  closes : (meanwhile : W → W) → Channel W F
  cancels : (meanwhile : W → W) → Error F → Channel W F
  delivers : (meanwhile : W → W) → Result F → Channel W F → Channel W F

-- `OperationContext(ctx).Set(ContextKeyOperationExecuted, true)`
unfoldable pub set_executed : Contexts → ℕ → Contexts
set_executed s ctx =
    let (s', opctx) = operation_context_of s ctx in put s' opctx operation_executed (boolean true)

module _ {ℓ} {W : Type ℓ} {F : Type 0} (h : Holder W) (gql : Gqlerrors F)
    (processor : Result F → Result F) (write : W → Result F → W × Option (Error F)) (ctx : ℕ) where
  -- The loop of `processResults`.
  unfoldable pub process_loop : W → Channel W F → W × Option (Error F)
  process_loop w (closes meanwhile) = (meanwhile w, none)
  process_loop w (cancels meanwhile err) = (
    meanwhile w,
    if context_operation_stopped (h.contexts (meanwhile w)) ctx then none else some err,
  )
  process_loop w (delivers meanwhile res rest) =
      let (w', failed) = process_result gql processor write (meanwhile w) res in
      elim failed [ some err ↦ (w', some err) | none ↦ process_loop w' rest ]

  -- `processResults`
  unfoldable pub process_results : W → Channel W F → W × Option (Error F)
  unfolding process_loop
  process_results w cres = process_loop (h.with_contexts w (set_executed (h.contexts w) ctx)) cres
