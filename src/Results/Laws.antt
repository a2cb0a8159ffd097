-- ===== src/Results/Laws.antt =====
-- v1/server.go: when `processResult` ends an operation.
use wsgraphql.Prelude.{
  ℕ, ◌+◌, ◌≡◌, ◌↔◌, refl, Option, none, some, List, [], ◌∷◌, length, length-append, map, arith,
}
use wsgraphql.Apollows.{Error, formatted, Datum, nothing, json, failure, Result}
use wsgraphql.Formatting.{Gqlerrors, format_error}
use wsgraphql.Results.{data_errors, target_errors, has_errors, after_write, process_result}

length-map : {A B : Type 0} (f : A → B) (xs : List A) → length (map f xs) ≡ length xs
length-map f [] = refl
length-map f (x ∷ xs) = omega (arith, length-map f xs)

module _ {F : Type 0} where
  abbrev pub data_problems : Datum F → ℕ
  data_problems nothing = 0
  data_problems (json s) = 0
  data_problems (failure e) = 1

  -- How many errors a result has, an error in the place of its data included.
  abbrev pub problems : Result F → ℕ
  problems res = data_problems res.content + length res.errors

  length-data_errors :
      (gql : Gqlerrors F) (d : Datum F) → length (data_errors gql d) ≡ data_problems d
  unfolding data_errors
  length-data_errors gql nothing = refl
  length-data_errors gql (json s) = refl
  length-data_errors gql (failure e) = refl

  length-target_errors :
      (gql : Gqlerrors F) (res : Result F) → length (target_errors gql res).errors ≡ problems res
  unfolding target_errors
  length-target_errors gql res = omega (
    arith,
    length-append (data_errors gql res.content)
        (map (λ src. format_error gql (formatted src)) res.errors),
    length-map (λ src. format_error gql (formatted src)) res.errors,
    length-data_errors gql res.content,
  )

  has_errors-none : (res : Result F) (es : List F) → (has_errors res es ≡ none) ↔ (length es ≡ 0)
  unfolding has_errors
  has_errors-none res [] = (λ e. refl, λ e. refl)
  has_errors-none res (e ∷ es) = (λ h. ground arith, λ h. ground arith)

  after_write-none :
      {W : Type 0} (res : Result F) (written : W × Option (Error F))
      → ((after_write res written).1 ≡ none) ↔ ((written.1 ≡ none) × (length res.errors ≡ 0))
  unfolding after_write
  after_write-none res (w, none) = (
    λ e. (refl, (has_errors-none res res.errors).0 e),
    λ (e, l). (has_errors-none res res.errors).1 l,
  )
  after_write-none res (w, some err) = (λ e. ground arith, λ (e, l). e)

  -- Processing a result reports no error exactly if the result was written without one and, as
  -- the result processor left it, it has no errors and its data is not an error.
  pub process_result-none :
      {W : Type 0} (gql : Gqlerrors F) (processor : Result F → Result F)
      (write : W → Result F → W × Option (Error F)) (w : W) (res : Result F)
      → ((process_result gql processor write w res).1 ≡ none) ↔ (
          ((write w (target_errors gql (processor res))).1 ≡ none) × (problems (processor res) ≡ 0))
  unfolding process_result
  process_result-none gql processor write w res = rw (← length-target_errors gql (processor res)) (
      after_write-none (target_errors gql (processor res))
        (write w (target_errors gql (processor res))))
