-- ===== src/Interceptors/Laws.antt =====
-- Interceptors around a handler, the first one outermost.
use wsgraphql.Prelude.{
  ℕ, zero, suc, ◌<◌, ◌≡◌, refl, ◌∙◌, ap, Option, none, some, List, [], ◌∷◌, length, drop, get_elem?,
  arith,
}
use wsgraphql.Interceptors.{Interceptor, skip_nil, call_at, chain, chained}

module _ {A R : Type 0} where
  -- The interceptors that are there, in order.
  abbrev pub present : List (Option (Interceptor A R)) → List (Interceptor A R)
  present [] = []
  present (none ∷ xs) = present xs
  present (some i ∷ xs) = i ∷ present xs

  -- Each interceptor is called with the handler that runs the ones behind it.
  abbrev pub nest : List (Interceptor A R) → (A → R) → A → R
  nest [] handler args = handler args
  nest (i ∷ is) handler args = i args (nest is handler)

  skip_nil-suc :
      (xs : List (Option (Interceptor A R))) (k : ℕ) → skip_nil xs (suc k) ≡ suc (skip_nil xs k)
  unfolding skip_nil
  skip_nil-suc [] k = refl
  skip_nil-suc (none ∷ xs) k = skip_nil-suc xs (suc k)
  skip_nil-suc (some i ∷ xs) k = refl

  -- The elements before the index do not matter.
  chain-suc :
      (n : ℕ) (x : Option (Interceptor A R)) (xs : List (Option (Interceptor A R))) (k : ℕ)
      (handler : A → R)
      → chain n (x ∷ xs) (suc k) handler ≡ chain n xs k handler
  unfolding chain
  chain-suc zero x xs k handler = refl
  chain-suc (suc n) x xs k handler = rw (skip_nil-suc (drop k xs) k) (
      ap (λ next. call_at (get_elem? xs (skip_nil (drop k xs) k)) next handler)
        (chain-suc n x xs (suc (skip_nil (drop k xs) k)) handler))

  chain-nest :
      (n : ℕ) (xs : List (Option (Interceptor A R))) (handler : A → R)
      → length xs < n
      → chain n xs 0 handler ≡ nest (present xs) handler
  unfolding chain skip_nil call_at
  chain-nest zero xs handler enough = absurd (omega (arith, enough))
  chain-nest (suc n) [] handler enough = refl
  chain-nest (suc n) (none ∷ xs) handler enough = rw (skip_nil-suc xs 0) (
      ap (λ next. call_at (get_elem? xs (skip_nil xs 0)) next handler)
        (chain-suc n none xs (suc (skip_nil xs 0)) handler)
      ∙ chain-nest (suc n) xs handler (omega (arith, enough)))
  chain-nest (suc n) (some i ∷ xs) handler enough =
      ap (λ next args. i args next)
        (chain-suc n (some i) xs 0 handler ∙ chain-nest n xs handler (omega (arith, enough)))

  -- The recursion on an index that skips nil interceptors does not run out of fuel: a chain nests the
  -- interceptors of the list that are not nil, in order, the first one outermost, and the handler
  -- inside the last.
  pub chained_lem :
      (xs : List (Option (Interceptor A R))) (args : A) (handler : A → R)
      → chained xs args handler ≡ nest (present xs) handler args
  unfolding chained
  chained_lem xs args handler =
      ap (λ run. run args) (chain-nest (suc (length xs)) xs handler (omega arith))
