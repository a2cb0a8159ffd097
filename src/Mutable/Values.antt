-- ===== src/Mutable/Values.antt =====
-- v1/mutable/api.go: what `Value` shows after each operation, on a context, its relatives and
-- strangers.
use wsgraphql.Prelude.{
  ℕ, ◌<◌, ◌≡◌, refl, ◌≢◌, false, List, [], ◌∷◌, Option, none, some, ite, ℕ_discrete, length, arith,
  ◌⊎◌, ap,
}
use mathlib.Core.Logic.{if_pos, if_neg}
use wsgraphql.Prelude.Dict
use wsgraphql.Mutable.{
  Node, Store, node_at, update_at, is_done, new_mutable_context, cancel, value_from, value, set,
}
use wsgraphql.Mutable.Cancellation.{
  reaches-cons, reaches, done_from-update_at, node_at_above, update_at_ne, update_at_eq,
  cancelled_node, descends, length-update_at,
}

module _ {K V : Type 0} (dec : Discrete K) where
  abbrev insert_node : K → V → Node K V → Node K V
  insert_node k v n = record n { values = Dict.insert dec k v n.values }

  abbrev own_or : Option V → V → V
  own_or none above = above
  own_or (some v) above = v

  value_from-cons :
      (base : K → V) (b : ℕ) (k : K) (n : Node K V) (rest : List (Node K V))
      → value_from dec base (some b) k (n ∷ rest)
        ≡ ite
            (ℕ_discrete b (length rest))
            (own_or (Dict.lookup dec k n.values) (value_from dec base n.parent k rest))
            (value_from dec base (some b) k rest)
  unfolding value_from
  value_from-cons base b k n rest = ground arith

  value_from-set_self :
      (base : K → V) (a : ℕ) (k : K) (v : V) (nodes : List (Node K V))
      → a < length nodes
      → value_from dec base (some a) k (update_at a (insert_node k v) nodes) ≡ v
  unfolding value_from update_at
  value_from-set_self base a k v [] h = absurd (omega arith)
  value_from-set_self base a k v (n ∷ rest) h = elim (ℕ_discrete a (length rest)) [
    | yes here ↦
        rw (if_pos _ here, if_pos _ here) (ground (arith, Dict.lookup-insert_self dec k v n.values))
    | no below ↦ rw (if_neg _ below) (
        ground
          (arith, length-update_at a (insert_node k v) rest, value_from-set_self base a k v rest))
  ]

  -- A context shows the value that was set on it last.
  pub value-set_self :
      (s : Store K V) (a : ℕ) (k : K) (v : V)
      → a < length s.nodes
      → value dec (set dec s a k v) a k ≡ v
  unfolding value set
  value-set_self s a k v h = value_from-set_self s.base_value a k v s.nodes h

  value_from-set_stranger :
      (base : K → V) (x : Option ℕ) (a : ℕ) (k j : K) (v : V) (nodes : List (Node K V))
      → ((reaches x a nodes ≡ false) ⊎ (k ≢ j))
      → value_from dec base x j (update_at a (insert_node k v) nodes)
        ≡ value_from dec base x j nodes
  value_from-set_stranger base none a k j v nodes h = unfold value_from in refl
  value_from-set_stranger base (some b) a k j v [] h = unfold value_from update_at in refl
  value_from-set_stranger base (some b) a k j v (n ∷ rest) h = elim (ℕ_discrete a (length rest)) [
    | yes here ↦
        rw
          (
            update_at_eq a (insert_node k v) n rest here,
            value_from-cons base b j (insert_node k v n) rest,
            value_from-cons base b j n rest,
          )
          (ground (arith, Dict.lookup-insert dec k j v n.values, reaches-cons b a n rest))
    | no below ↦
        rw
          (
            update_at_ne a (insert_node k v) n rest below,
            value_from-cons base b j n (update_at a (insert_node k v) rest),
            value_from-cons base b j n rest,
          )
          (ground (
            arith,
            reaches-cons b a n rest,
            length-update_at a (insert_node k v) rest,
            value_from-set_stranger base n.parent a k j v rest,
            value_from-set_stranger base (some b) a k j v rest,
          ))
  ]

  -- Setting a key on one context changes no other key anywhere, and nothing at all in a context
  -- that does not derive from it.
  pub value-set_stranger :
      (s : Store K V) (a b : ℕ) (k j : K) (v : V)
      → ((descends s b a ≡ false) ⊎ (k ≢ j))
      → value dec (set dec s a k v) b j ≡ value dec s b j
  unfolding value set descends
  value-set_stranger s a b k j v h = value_from-set_stranger s.base_value (some b) a k j v s.nodes h

  pub value-new :
      (s : Store K V) (p : ℕ) (k : K)
      → value dec (new_mutable_context s (some p)).0 (length s.nodes) k ≡ value dec s p k
  unfolding value new_mutable_context Dict.lookup
  value-new s p k = ground arith

  -- A new context shows what its parent shows, is done exactly if its parent is, and the contexts
  -- made before it are as they were.
  pub new_mutable_context_lem :
      (s : Store K V) (p b : ℕ) (k : K)
      → b < length s.nodes
      → let (t, a) = new_mutable_context s (some p) in
        (value dec t a k ≡ value dec s p k)
        × (is_done t a ≡ is_done s p)
        × (value dec t b k ≡ value dec s b k)
        × (is_done t b ≡ is_done s b)
  unfolding value is_done new_mutable_context Dict.lookup
  new_mutable_context_lem s p b k h = ground arith

  value_from_inherited :
      (base : K → V) (a p : ℕ) (k : K) (n : Node K V) (nodes : List (Node K V))
      → node_at a nodes ≡ some n
      → n.parent ≡ some p
      → p < a
      → Dict.lookup dec k n.values ≡ none
      → value_from dec base (some a) k nodes ≡ value_from dec base (some p) k nodes
  unfolding value_from node_at
  value_from_inherited base a p k n [] e q h l = cc
  value_from_inherited base a p k n (m ∷ rest) e q h l = elim (ℕ_discrete a (length rest)) [
    | yes here ↦
        let same : m ≡ n = ground arith in
        ground (
          arith,
          ap (λ (r : Node K V). r.parent) same,
          ap (λ (r : Node K V). Dict.lookup dec k r.values) same,
        )
    | no below ↦ elim (ℕ_discrete p (length rest)) [
      | yes top ↦ ground (arith, node_at_above a rest)
      | no low ↦ ground (arith, value_from_inherited base a p k n rest)
    ]
  ]

  -- A context shows its parent's value of each key that was never set on it, whenever the parent
  -- got that value.
  pub value_inherited :
      (s : Store K V) (a p : ℕ) (k : K) (n : Node K V)
      → node_at a s.nodes ≡ some n
      → n.parent ≡ some p
      → p < a
      → Dict.lookup dec k n.values ≡ none
      → value dec s a k ≡ value dec s p k
  unfolding value
  value_inherited s a p k n e q h l = value_from_inherited s.base_value a p k n s.nodes e q h l

  node_at-update_ne :
      (a b : ℕ) (f : Node K V → Node K V) (nodes : List (Node K V))
      → a ≢ b
      → node_at b (update_at a f nodes) ≡ node_at b nodes
  unfolding node_at update_at
  node_at-update_ne a b f [] h = refl
  node_at-update_ne a b f (n ∷ rest) h =
      ground (arith, length-update_at a f rest, node_at-update_ne a b f rest)

  node_at-update_self :
      (a : ℕ) (f : Node K V → Node K V) (n : Node K V) (nodes : List (Node K V))
      → node_at a nodes ≡ some n
      → node_at a (update_at a f nodes) ≡ some (f n)
  unfolding node_at update_at
  node_at-update_self a f n [] h = cc
  node_at-update_self a f n (m ∷ rest) h =
      ground (arith, length-update_at a f rest, node_at-update_self a f n rest)

  pub node_at-set_self :
      (s : Store K V) (a : ℕ) (k : K) (v : V) (n : Node K V)
      → node_at a s.nodes ≡ some n
      → node_at a (set dec s a k v).nodes
        ≡ some (record n { values = Dict.insert dec k v n.values })
  unfolding set
  node_at-set_self s a k v n h = node_at-update_self a (insert_node k v) n s.nodes h

  -- The node of a context is changed only by what is done to that context.
  pub node_at-set_ne :
      (s : Store K V) (a b : ℕ) (k : K) (v : V)
      → a ≢ b
      → node_at b (set dec s a k v).nodes ≡ node_at b s.nodes
  unfolding set
  node_at-set_ne s a b k v h = node_at-update_ne a b (insert_node k v) s.nodes h

  -- Setting a value makes no context done.
  pub is_done-set :
      (s : Store K V) (a b : ℕ) (k : K) (v : V) → is_done (set dec s a k v) b ≡ is_done s b
  unfolding is_done set
  is_done-set s a b k v =
      done_from-update_at (insert_node k v) (λ n. refl) (λ n. refl) s.base_done (some b) a s.nodes

  value_from-cancel :
      (base : K → V) (x : Option ℕ) (a : ℕ) (k : K) (nodes : List (Node K V))
      → value_from dec base x k (update_at a cancelled_node nodes) ≡ value_from dec base x k nodes
  value_from-cancel base none a k nodes = unfold value_from in refl
  value_from-cancel base (some b) a k [] = unfold value_from update_at in refl
  value_from-cancel base (some b) a k (n ∷ rest) = elim (ℕ_discrete a (length rest)) [
    | yes here ↦ rw (
      update_at_eq a cancelled_node n rest here,
      value_from-cons base b k (cancelled_node n) rest,
      value_from-cons base b k n rest,
    )
    | no below ↦ rw (
      update_at_ne a cancelled_node n rest below,
      value_from-cons base b k n (update_at a cancelled_node rest),
      value_from-cons base b k n rest,
      length-update_at a cancelled_node rest,
      value_from-cancel base n.parent a k rest,
      value_from-cancel base (some b) a k rest,
    )
  ]

  -- Cancelling changes no value.
  pub value-cancel :
      (s : Store K V) (a b : ℕ) (k : K) → value dec (cancel s a) b k ≡ value dec s b k
  unfolding value cancel
  value-cancel s a b k = value_from-cancel s.base_value (some b) a k s.nodes
