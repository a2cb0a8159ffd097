-- ===== src/Formatting.antt =====
-- v1/error.go: errors made ready for a response; and `combineErrors` of v1/server_websocket.go.
--
-- `gqlerrors.FormattedError` belongs to graphql-go: the type `F` and the operations of `Gqlerrors`
-- are parameters. An error of Go may be nil: `Option`. The source locations of an error are numbers.
pub mod Laws
mod Tests
use wsgraphql.Prelude.{ℕ, String, String_discrete, Option, some, List, [], ◌∷◌, map}
use wsgraphql.Prelude.Dict
use wsgraphql.Apollows.{Error, graphql_error, extended, formatted}
use wsgraphql.Apollows.Errors.{◌+s◌}

-- What the program stores under a key of `FormattedError.Extensions`.
pub data Extension (F : Type 0) : Type 0 where
  value : String → Extension F
  errors : List F → Extension F

pub record Gqlerrors (F : Type 0) : Type 0 where
  pub gql_format_error : Option (Error F) → F
  pub new_formatted_error : String → F
  pub original_error : F → Option (Error F)
  pub locations : F → List ℕ
  pub extensions : F → List (String × Extension F)
  pub set_extensions : F → List (String × Extension F) → F
  pub error_text : F → String

-- `strings.Join`
unfoldable pub join : String → List String → String
join sep [] = ""
join sep (s ∷ []) = s
join sep (s ∷ t ∷ ss) = s +s sep +s join sep (t ∷ ss)

module _ {F : Type 0} where
  -- `wrapExtendedError`
  unfoldable pub wrap_extended_error : Option (Error F) → List ℕ → Option (Error F)
  wrap_extended_error (some (extended message n)) loc =
      some (graphql_error message (extended message n) loc)
  wrap_extended_error err loc = err

  -- The second half of `FormatError`, from the test for `*gqlerrors.Error`.
  format_located : Gqlerrors F → Option (Error F) → List ℕ → F
  unfolding wrap_extended_error
  format_located gql (some (graphql_error message err l)) loc =
      gql.gql_format_error (some (graphql_error message err l))
  format_located gql err loc = gql.gql_format_error (wrap_extended_error err loc)

  -- `FormatError`
  unfoldable pub format_error : Gqlerrors F → Error F → F
  unfolding format_located
  format_error gql (formatted f) = format_located gql (gql.original_error f) (gql.locations f)
  format_error gql err = format_located gql (some err) []

  -- `for k, v := range ext { combined[k] = v }`
  unfoldable pub add_all :
      List (String × Extension F) → List (String × Extension F) → List (String × Extension F)
  add_all combined [] = combined
  add_all combined ((k, v) ∷ ext) = add_all (Dict.insert String_discrete k v combined) ext

  combine_extensions :
      Gqlerrors F → List (String × Extension F) → List F → List (String × Extension F)
  unfolding add_all
  combine_extensions gql combined [] = combined
  combine_extensions gql combined (err ∷ errs) =
      combine_extensions gql (add_all combined (gql.extensions (format_error gql (formatted err))))
        errs

  combine_messages : Gqlerrors F → List F → List String
  combine_messages gql = map (λ err. gql.error_text (format_error gql (formatted err)))

  -- `combineErrors`
  unfoldable pub combine_errors : Gqlerrors F → List F → F
  unfolding combine_extensions combine_messages join
  combine_errors gql [] = gql.new_formatted_error "preparing operation"
  combine_errors gql (err ∷ []) = err
  combine_errors gql (err ∷ err' ∷ errs) =
      gql.set_extensions
        (gql.new_formatted_error
          ("preparing operation" +s ": " +s join "; " (combine_messages gql (err ∷ err' ∷ errs))))
        (Dict.insert String_discrete "errors" (errors (err ∷ err' ∷ errs))
          (combine_extensions gql [] (err ∷ err' ∷ errs)))
