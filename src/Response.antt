-- ===== src/Response.antt =====
-- v1/api_server.go: `WriteError`, and the world in which a request is served.
--
-- A world holds the contexts, the calls made on each `http.ResponseWriter`, oldest first, and the
-- state `U` of code that is not the program's.
pub mod Laws
use Prim.Native.String
use wsgraphql.Prelude.{
  ℕ, String, Bool, true, false, Option, none, some, List, [], ◌∷◌, ◌++◌, if◌then◌else◌,
}
use wsgraphql.Context.{Contexts, context_http_response_started}
use wsgraphql.Apollows.{
  Error, ApollowsError, Cause, Datum, apollows, result_error, formatted, graphql_error, extended,
  plain, wrapped, event, error_impl, no_cause, cause, nothing,
}
use wsgraphql.Apollows.Errors.{apollows_error_text}
use wsgraphql.Formatting.{Gqlerrors}

pub data HeaderValue : Type 0 where
  text : String → HeaderValue
  decimal : ℕ → HeaderValue

-- A call on a response writer.
pub data ResponseCall : Type 0 where
  set_header : String → HeaderValue → ResponseCall
  write_header : ℕ → ResponseCall
  write : String → ResponseCall
  flush : ResponseCall

pub record World (U : Type 0) : Type 0 where
  pub contexts : Contexts
  pub calls : List (ℕ × ResponseCall)
  pub user : U

module _ {U : Type 0} where
  unfoldable pub respond : World U → ℕ → ResponseCall → World U
  respond w writer call = record w { calls = w.calls ++ (writer, call) ∷ [] }

-- Whether `errors.As(err, &res)` finds a `ResultError`, along `Unwrap`.
unfoldable mutual
  pub is_result_error : {F : Type 0} → Error F → Bool
  is_result_error (apollows e) = wraps_result_error e
  is_result_error (result_error c es) = true
  is_result_error (formatted f) = false
  is_result_error (graphql_error m err l) = false
  is_result_error (extended m n) = false
  is_result_error (plain m) = false
  is_result_error (wrapped m err) = is_result_error err

  pub wraps_result_error : {F : Type 0} → ApollowsError F → Bool
  wraps_result_error (event m) = false
  wraps_result_error (error_impl c message m) = cause_is_result_error c

  pub cause_is_result_error : {F : Type 0} → Cause F → Bool
  cause_is_result_error no_cause = false
  cause_is_result_error (cause err) = is_result_error err

module _ {F : Type 0} where
  -- `Error()`; `marshal` is `json.Marshal` of a result, an `http.StatusBadRequest` is 400.
  unfoldable pub error_string :
      Gqlerrors F → (marshal : Datum F → List F → String) → Error F → String
  error_string gql marshal (apollows e) = apollows_error_text e
  error_string gql marshal (result_error c es) = marshal c es
  error_string gql marshal (formatted f) = gql.error_text f
  error_string gql marshal (graphql_error m err l) = m
  error_string gql marshal (extended m n) = m
  error_string gql marshal (plain m) = m
  error_string gql marshal (wrapped m err) = m

  -- The body that `WriteError` sends.
  unfoldable pub error_body : Gqlerrors F → (marshal : Datum F → List F → String) → Error F → String
  error_body gql marshal err =
      if is_result_error err
      then error_string gql marshal err
      else marshal nothing (gql.gql_format_error (some err) ∷ [])

  -- `WriteError`
  unfoldable pub write_error :
      {U : Type 0}
      → Gqlerrors F
      → (marshal : Datum F → List F → String) → World U
      → (ctx writer : ℕ) → Option (Error F)
      → World U
  write_error gql marshal w ctx writer none = w
  write_error gql marshal w ctx writer (some err) =
      if context_http_response_started w.contexts ctx
      then w
      else respond
          (respond
            (respond w writer
              (set_header "content-length" (decimal (String.len (error_body gql marshal err)))))
            writer (write_header 400))
          writer (write (error_body gql marshal err))
