-- ===== src/Response/Laws.antt =====
-- v1/api_server.go: what `WriteError` leaves on the wire.
use wsgraphql.Prelude.{ℕ, String, ◌≡◌, refl, false, some, List, [], ◌∷◌, ◌++◌, ap}
use Prim.Native.String
use wsgraphql.Context.{context_http_response_started}
use wsgraphql.Apollows.{Error, Datum}
use wsgraphql.Formatting.{Gqlerrors}
use wsgraphql.Response.{
  World, ResponseCall, set_header, write_header, write, decimal, respond, error_body, write_error,
}

module _ {F : Type 0} where
  -- The calls of one error response.
  abbrev pub error_response :
      Gqlerrors F → (marshal : Datum F → List F → String) → ℕ → Error F → List (ℕ × ResponseCall)
  error_response gql marshal writer err =
      (writer, set_header "content-length" (decimal (String.len (error_body gql marshal err))))
      ∷ (writer, write_header 400)
      ∷ (writer, write (error_body gql marshal err))
      ∷ []

three_calls :
    {A : Type 0} (xs : List A) (a b c : A)
    → ((xs ++ a ∷ []) ++ b ∷ []) ++ c ∷ [] ≡ xs ++ a ∷ b ∷ c ∷ []
three_calls [] a b c = refl
three_calls (x ∷ xs) a b c = ap (λ r. x ∷ r) (three_calls xs a b c)

module _ {F U : Type 0} (gql : Gqlerrors F) (marshal : Datum F → List F → String) where
  abbrev pub answered : World U → ℕ → Error F → World U
  answered w writer err = record w { calls = w.calls ++ error_response gql marshal writer err }

  pub write_error-fresh :
      (w : World U) (ctx writer : ℕ) (err : Error F)
      → context_http_response_started w.contexts ctx ≡ false
      → write_error gql marshal w ctx writer (some err) ≡ answered w writer err
  unfolding write_error respond
  write_error-fresh w ctx writer err h = rw (h, three_calls w.calls _ _ _) refl
