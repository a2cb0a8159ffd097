-- ===== src/Ast/Hooks.antt =====
-- v1/ast.go: the calls of the extensions' hooks, each of which may panic and is recovered from.
use wsgraphql.Prelude.{ℕ, String, String_discrete, Option, some, List, [], ◌∷◌, ◌++◌}
use wsgraphql.Prelude.Dict
use wsgraphql.Apollows.{Error, plain}
use wsgraphql.Apollows.Errors.{◌+s◌}
use wsgraphql.Formatting.{Gqlerrors}

-- How a call ends: with the text of what it panicked with, or with a value.
pub data Called (W A : Type 0) : Type 0 where
  panicked : W → String → Called W A
  returned : W → A → Called W A

abbrev pub ParseFinish : Type 0 → Type 0 → Type 0
ParseFinish W F = W → Option (Error F) → Called W (Unit {0})

abbrev pub ValidationFinish : Type 0 → Type 0 → Type 0
ValidationFinish W F = W → List F → Called W (Unit {0})

-- `graphql.Extension`, as far as this file calls it. A hook gets a context and gives one back.
pub record Extension (W F : Type 0) : Type 0 where
  pub name : String
  pub init : W → ℕ → (params : ℕ) → Called W (ℕ × Unit {0})
  pub parse_did_start : W → ℕ → Called W (ℕ × ParseFinish W F)
  pub validation_did_start : W → ℕ → Called W (ℕ × ValidationFinish W F)

module _ {F : Type 0} where
  -- `gqlerrors.FormatError(fmt.Errorf("%s.….: %v", name, r))`
  unfoldable pub panic_error : Gqlerrors F → (name hook reason : String) → F
  panic_error gql name hook reason =
      gql.gql_format_error (some (plain (name +s "." +s hook +s ": " +s reason)))

-- What a loop over the extensions leaves: the state, `p.Context`, the map of finish functions, and
-- the errors.
pub record Hooked (W F Y : Type 0) : Type 0 where
  pub world : W
  pub ctx : ℕ
  pub finishers : List (String × Y)
  pub errs : List F

module _ {W F Y : Type 0} (gql : Gqlerrors F) (hook : String)
    (call : Extension W F → W → ℕ → Called W (ℕ × Y)) where
  -- The body of the loop, after the call.
  unfoldable pub hooked : Hooked W F Y → (name : String) → Called W (ℕ × Y) → Hooked W F Y
  hooked h name (panicked w reason) = record h {
    world = w;
    errs = h.errs ++ panic_error gql name hook reason ∷ [];
  }
  hooked h name (returned w (ctx, finish)) = record h {
    world = w;
    ctx = ctx;
    finishers = Dict.insert String_discrete name finish h.finishers;
  }

  -- The three loops over the extensions; that of `handleExtensionsInits` has no map.
  unfoldable pub hook_all : List (Extension W F) → Hooked W F Y → Hooked W F Y
  unfolding hooked
  hook_all [] h = h
  hook_all (e ∷ es) h = hook_all es (hooked h e.name (call e h.world h.ctx))

module _ {W F Y : Type 0} (gql : Gqlerrors F) (hook : String)
    (call : Y → W → Called W (Unit {0})) where
  unfoldable pub finished : W × List F → (name : String) → Called W (Unit {0}) → W × List F
  finished (_, errs) name (panicked w reason) = (w, errs ++ panic_error gql name hook reason ∷ [])
  finished (_, errs) name (returned w _) = (w, errs)

  -- The two loops over the finish functions.
  unfoldable pub finish_all : List (String × Y) → W × List F → W × List F
  unfolding finished
  finish_all [] r = r
  finish_all ((name, f) ∷ fs) r = finish_all fs (finished r name (call f r.0))
