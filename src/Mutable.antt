-- ===== src/Mutable.antt =====
-- v1/mutable/api.go: contexts whose values can be set after they are made.
--
-- Contexts stand in a store, newest first; the address of a context is the number of contexts made
-- before it. A parent is an older context, or `none` for the context of the HTTP server, of which
-- the store knows the values and whether it is done. `context.WithCancel` is that of Go: a derived
-- context is done when it is cancelled or its parent is done. The mutex is not modelled: each
-- operation is one step.
pub mod Cancellation
pub mod Values
use wsgraphql.Prelude.{
  ℕ, ◌≡◌, Bool, true, false, ◌||◌, List, [], ◌∷◌, Option, none, some, ite, ℕ_discrete, length,
}
use wsgraphql.Prelude.Dict

pub record Node (K V : Type 0) : Type 0 where
  pub parent : Option ℕ
  pub values : List (K × V)
  pub cancelled : Bool

pub record Store (K V : Type 0) : Type 0 where
  pub base_value : K → V
  pub base_done : Bool
  pub nodes : List (Node K V)

module _ {K V : Type 0} where
  -- The context at an address.
  unfoldable pub node_at : ℕ → List (Node K V) → Option (Node K V)
  node_at a [] = none
  node_at a (n ∷ rest) = ite (ℕ_discrete a (length rest)) (some n) (node_at a rest)

  -- A change of the context at an address.
  pub update_at : ℕ → (Node K V → Node K V) → List (Node K V) → List (Node K V)
  update_at a f [] = []
  update_at a f (n ∷ rest) = ite (ℕ_discrete a (length rest)) (f n ∷ rest) (n ∷ update_at a f rest)

  -- Whether `ctx.Done()` is closed.
  pub done_from : Bool → Option ℕ → List (Node K V) → Bool
  done_from base none nodes = base
  done_from base (some a) [] = base
  done_from base (some a) (n ∷ rest) =
      let above = done_from base n.parent rest in
      let below = done_from base (some a) rest in
      ite (ℕ_discrete a (length rest)) (n.cancelled || above) below

  unfoldable pub is_done : Store K V → ℕ → Bool
  unfolding done_from
  is_done s a = done_from s.base_done (some a) s.nodes

  -- `NewMutableContext(parent)`
  unfoldable pub new_mutable_context : Store K V → Option ℕ → Store K V × ℕ
  new_mutable_context s parent = (
    record s { nodes = record { parent = parent; values = []; cancelled = false } ∷ s.nodes },
    length s.nodes,
  )

  -- `Cancel`
  unfoldable pub cancel : Store K V → ℕ → Store K V
  unfolding update_at
  cancel s a = record s { nodes = update_at a (λ n. record n { cancelled = true }) s.nodes }

module _ {K V : Type 0} (dec : Discrete K) where
  value_from : (K → V) → Option ℕ → K → List (Node K V) → V
  value_from base none k nodes = base k
  value_from base (some a) k [] = base k
  value_from base (some a) k (n ∷ rest) =
      let above = value_from base n.parent k rest in
      let below = value_from base (some a) k rest in
      ite (ℕ_discrete a (length rest))
        (elim (Dict.lookup dec k n.values) [ some v ↦ v | none ↦ above ]) below

  -- `Value`: what was set here, or else the parent's value.
  unfoldable pub value : Store K V → ℕ → K → V
  unfolding value_from
  value s a k = value_from s.base_value (some a) k s.nodes

  -- `Set`
  unfoldable pub set : Store K V → ℕ → K → V → Store K V
  unfolding update_at
  set s a k v = record s {
    nodes = update_at a (λ n. record n { values = Dict.insert dec k v n.values }) s.nodes;
  }
