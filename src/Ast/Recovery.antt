-- ===== src/Ast/Recovery.antt =====
-- v1/ast.go: what panics of the extensions' hooks lead to.
use wsgraphql.Prelude.{
  ◌⊎◌, inl, inr, Option, some, ◌++◌, sym, ℕ, ◌≤◌, ◌≡◌, refl, String, String_discrete, List, [], ◌∷◌,
  ite, length, length-append, arith,
}
use wsgraphql.Prelude.Dict
use mathlib.Core.List.{append_assoc, append-nil}
use wsgraphql.Formatting.{Gqlerrors}
use wsgraphql.Ast.Hooks.{
  Called, panicked, returned, Extension, Hooked, hooked, hook_all, panic_error, finished,
  finish_all,
}

-- How a call ended, apart from the state: what it panicked with, or its finish function.
abbrev pub outcome : {W Y : Type 0} → Called W (ℕ × Y) → String ⊎ Y
outcome (panicked w reason) = inl reason
outcome (returned w (c, y)) = inr y

-- The error that stands for what a hook does, if it panics.
abbrev pub error_of : {F Y : Type 0} → Gqlerrors F → (hook name : String) → String ⊎ Y → List F
error_of gql hook name (inl reason) = panic_error gql name hook reason ∷ []
error_of gql hook name (inr y) = []

-- What stands under `k` after the hook of the extension `name`.
abbrev pub kept : {Y : Type 0} → (k name : String) → String ⊎ Y → Option Y → Option Y
kept k name (inl reason) before = before
kept k name (inr y) before = ite (String_discrete name k) (some y) before

module _ {W F Y : Type 0} (does : Extension W F → String ⊎ Y) where
  -- The errors of the extensions that panic, in order.
  abbrev pub panic_errors : Gqlerrors F → (hook : String) → List (Extension W F) → List F
  panic_errors gql hook [] = []
  panic_errors gql hook (e ∷ es) = error_of gql hook e.name (does e) ++ panic_errors gql hook es

  -- The finish function of the last extension of name `k` that does not panic, or the one before.
  abbrev pub last_finisher : (k : String) → List (Extension W F) → Option Y → Option Y
  last_finisher k [] before = before
  last_finisher k (e ∷ es) before = last_finisher k es (kept k e.name (does e) before)

module _ {W F Y : Type 0} (gql : Gqlerrors F) (hook : String)
    (call : Extension W F → W → ℕ → Called W (ℕ × Y)) where
  hooked_lem :
      (h : Hooked W F Y) (name k : String) (r : Called W (ℕ × Y))
      → ((hooked gql hook call h name r).errs ≡ h.errs ++ error_of gql hook name (outcome r))
        × (Dict.lookup String_discrete k (hooked gql hook call h name r).finishers
            ≡ kept k name (outcome r) (Dict.lookup String_discrete k h.finishers))
  unfolding hooked
  hooked_lem h name k (panicked w reason) = (refl, refl)
  hooked_lem h name k (returned w (c, y)) =
      (sym (append-nil _), Dict.lookup-insert String_discrete name k y h.finishers)

  -- Whether the hook of each extension of a list panics, and with what text, or which finish
  -- function it gives, does not depend on the state.
  abbrev pub Steady : (Extension W F → String ⊎ Y) → List (Extension W F) → Type 0
  Steady does [] = Unit {0}
  Steady does (e ∷ es) = ((w : W) (c : ℕ) → outcome (call e w c) ≡ does e) × Steady does es

  -- If it depends on the extension alone whether its hook panics, and with what text, or which
  -- finish function it gives, then the errors are those of the extensions that panic, in order, and
  -- the map keeps under each name the finish function of the last extension of that name that does
  -- not panic, whatever the others do.
  pub hook_all_recovers :
      (does : Extension W F → String ⊎ Y) (es : List (Extension W F))
      → Steady does es
      → (h : Hooked W F Y) (k : String)
      → ((hook_all gql hook call es h).errs ≡ h.errs ++ panic_errors does gql hook es)
        × (Dict.lookup String_discrete k (hook_all gql hook call es h).finishers
            ≡ last_finisher does k es (Dict.lookup String_discrete k h.finishers))
  unfolding hook_all
  hook_all_recovers does [] steady h k = (sym (append-nil _), refl)
  hook_all_recovers does (e ∷ es) (steady, rest) h k =
      let r = call e h.world h.ctx in
      let (errs, keys) = hook_all_recovers does es rest (hooked gql hook call h e.name r) k in
      let (errs', keys') = rw (steady h.world h.ctx) at (hooked_lem h e.name k r) in
      (rw (errs, errs', append_assoc) refl, rw (keys, keys') refl)

module _ {W F Y : Type 0} (gql : Gqlerrors F) (hook : String)
    (call : Y → W → Called W (Unit {0})) where
  pub finish_all-length-le :
      (fs : List (String × Y)) (r : W × List F)
      → length r.1 ≤ length (finish_all gql hook call fs r).1
  unfolding finish_all
  finish_all-length-le [] r = omega arith
  finish_all-length-le ((name, f) ∷ fs) r = omega (
    arith,
    grown r (call f r.0),
    finish_all-length-le fs (finished gql hook call r name (call f r.0)),
  )
    where
      grown :
          (q : W × List F) (c : Called W (Unit {0}))
          → length q.1 ≤ length (finished gql hook call q name c).1
      grown (v, errs) (panicked w reason) = unfold finished in omega (arith, length-append {0})
      grown (v, errs) (returned w u) = unfold finished in omega arith
