-- ===== src/Mutable/Cancellation.antt =====
-- v1/mutable/api.go: which contexts `Cancel` makes done.
use wsgraphql.Prelude.{
  ℕ, ◌≤◌, ◌<◌, ◌≡◌, refl, ◌≢◌, Bool, true, false, ◌||◌, List, [], ◌∷◌, Option, none, some, ite,
  ℕ_discrete, length, arith,
}
use wsgraphql.Mutable.{
  new_mutable_context, Node, Store, node_at, update_at, done_from, is_done, cancel,
}

module _ {K V : Type 0} where
  -- Whether the context `x` is the one at `a` or derives from it.
  pub reaches : Option ℕ → ℕ → List (Node K V) → Bool
  reaches none a nodes = false
  reaches (some b) a [] = false
  reaches (some b) a (n ∷ rest) =
      let above = reaches n.parent a rest in
      let below = reaches (some b) a rest in
      ite (ℕ_discrete b (length rest)) (ite (ℕ_discrete a b) true above) below

  unfoldable pub descends : Store K V → ℕ → ℕ → Bool
  unfolding reaches
  descends s b a = reaches (some b) a s.nodes

  pub reaches-cons :
      (b a : ℕ) (n : Node K V) (rest : List (Node K V))
      → reaches (some b) a (n ∷ rest)
        ≡ ite
            (ℕ_discrete b (length rest))
            (ite (ℕ_discrete a b) true (reaches n.parent a rest))
            (reaches (some b) a rest)
  unfolding reaches
  reaches-cons b a n rest = refl

  done_from-cons :
      (base : Bool) (b : ℕ) (n : Node K V) (rest : List (Node K V))
      → done_from base (some b) (n ∷ rest)
        ≡ ite
            (ℕ_discrete b (length rest))
            (n.cancelled || done_from base n.parent rest)
            (done_from base (some b) rest)
  unfolding done_from
  done_from-cons base b n rest = refl

  pub node_at_above : (a : ℕ) (nodes : List (Node K V)) → length nodes ≤ a → node_at a nodes ≡ none
  unfolding node_at
  node_at_above a [] h = refl
  node_at_above a (n ∷ rest) h = ground (arith, node_at_above a rest)

  pub length-update_at :
      (a : ℕ) (f : Node K V → Node K V) (nodes : List (Node K V))
      → length (update_at a f nodes) ≡ length nodes
  unfolding update_at
  length-update_at a f [] = refl
  length-update_at a f (n ∷ rest) = ground (arith, length-update_at a f rest)

  pub update_at_ne :
      (a : ℕ) (f : Node K V → Node K V) (n : Node K V) (rest : List (Node K V))
      → a ≢ length rest
      → update_at a f (n ∷ rest) ≡ n ∷ update_at a f rest
  unfolding update_at
  update_at_ne a f n rest h = ground arith

  pub update_at_eq :
      (a : ℕ) (f : Node K V → Node K V) (n : Node K V) (rest : List (Node K V))
      → a ≡ length rest
      → update_at a f (n ∷ rest) ≡ f n ∷ rest
  unfolding update_at
  update_at_eq a f n rest h = ground arith

  reaches_above :
      (x : Option ℕ) (a : ℕ) (nodes : List (Node K V))
      → length nodes ≤ a
      → reaches x a nodes ≡ false
  unfolding reaches
  reaches_above none a nodes h = refl
  reaches_above (some b) a [] h = refl
  reaches_above (some b) a (n ∷ rest) h =
      ground (arith, reaches_above n.parent a rest, reaches_above (some b) a rest)

  abbrev pub cancelled_node : Node K V → Node K V
  cancelled_node n = record n { cancelled = true }

  done_from-cancel :
      (base : Bool) (x : Option ℕ) (a : ℕ) (nodes : List (Node K V))
      → done_from base x (update_at a cancelled_node nodes)
        ≡ (reaches x a nodes || done_from base x nodes)
  done_from-cancel base none a nodes = unfold reaches done_from in refl
  done_from-cancel base (some b) a [] = unfold reaches done_from update_at in refl
  done_from-cancel base (some b) a (n ∷ rest) = elim (ℕ_discrete a (length rest)) [
    | yes here ↦
        rw
          (
            update_at_eq a cancelled_node n rest here,
            done_from-cons base b (cancelled_node n) rest,
            done_from-cons base b n rest,
            reaches-cons b a n rest,
          )
          (ground (arith, reaches_above (some b) a rest))
    | no below ↦
        rw
          (
            update_at_ne a cancelled_node n rest below,
            done_from-cons base b n (update_at a cancelled_node rest),
            done_from-cons base b n rest,
            reaches-cons b a n rest,
          )
          (ground (
            arith,
            length-update_at a cancelled_node rest,
            done_from-cancel base n.parent a rest,
            done_from-cancel base (some b) a rest,
          ))
  ]

  -- Cancelling a context makes done that context and whatever derives from it; every other
  -- context is done exactly if it was before.
  pub is_done-cancel :
      (s : Store K V) (a b : ℕ) → is_done (cancel s a) b ≡ (descends s b a || is_done s b)
  unfolding is_done cancel descends
  is_done-cancel s a b = done_from-cancel s.base_done (some b) a s.nodes

  reaches_self :
      (a : ℕ) (nodes : List (Node K V)) → a < length nodes → reaches (some a) a nodes ≡ true
  unfolding reaches
  reaches_self a [] h = absurd (omega arith)
  reaches_self a (n ∷ rest) h = ground (arith, reaches_self a rest)

  -- A context that was cancelled is done.
  pub is_done-cancel_self :
      (s : Store K V) (a : ℕ) → a < length s.nodes → is_done (cancel s a) a ≡ true
  unfolding descends
  is_done-cancel_self s a h = cc (is_done-cancel s a a, reaches_self a s.nodes h)

  pub done_from-update_at :
      (f : Node K V → Node K V)
      → ((n : Node K V) → (f n).parent ≡ n.parent)
      → ((n : Node K V) → (f n).cancelled ≡ n.cancelled)
      → (base : Bool) (x : Option ℕ) (a : ℕ) (nodes : List (Node K V))
      → done_from base x (update_at a f nodes) ≡ done_from base x nodes
  done_from-update_at f p c base none a nodes = unfold done_from in refl
  done_from-update_at f p c base (some b) a [] = unfold done_from update_at in refl
  done_from-update_at f p c base (some b) a (n ∷ rest) = elim (ℕ_discrete a (length rest)) [
    | yes here ↦ rw (
      update_at_eq a f n rest here,
      done_from-cons base b (f n) rest,
      done_from-cons base b n rest,
      p n,
      c n,
    )
    | no below ↦ rw (
      update_at_ne a f n rest below,
      done_from-cons base b n (update_at a f rest),
      done_from-cons base b n rest,
      length-update_at a f rest,
      done_from-update_at f p c base n.parent a rest,
      done_from-update_at f p c base (some b) a rest,
    )
  ]

  -- A context with no parent among the contexts is done exactly if the HTTP server's is.
  pub is_done-new_root :
      (s : Store K V) → is_done (new_mutable_context s none).0 (length s.nodes) ≡ s.base_done
  unfolding is_done new_mutable_context done_from
  is_done-new_root s = ground arith

  pub length-cancel : (s : Store K V) (a : ℕ) → length (cancel s a).nodes ≡ length s.nodes
  unfolding cancel
  length-cancel s a = length-update_at a cancelled_node s.nodes
