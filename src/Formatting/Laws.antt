-- ===== src/Formatting/Laws.antt =====
-- v1/server_websocket.go: what `combineErrors` keeps of the errors.
use wsgraphql.Prelude.{
  ◌≡◌, refl, String, String_discrete, Bool, true, false, ◌||◌, some, is_some, List, [], ◌∷◌, ite,
  arith,
}
use wsgraphql.Prelude.Dict
use wsgraphql.Apollows.{formatted}
use wsgraphql.Formatting.{
  Extension, errors, Gqlerrors, format_error, add_all, combine_extensions, combine_errors,
}

module _ {F : Type 0} where
  abbrev pub has_key : String → List (String × Extension F) → Bool
  has_key k m = is_some (Dict.lookup String_discrete k m)

  -- Whether one of the errors, formatted, has an extension under a key.
  pub any_has : Gqlerrors F → String → List F → Bool
  any_has gql k [] = false
  any_has gql k (err ∷ errs) =
      has_key k (gql.extensions (format_error gql (formatted err))) || any_has gql k errs

  has_key-insert :
      (k j : String) (v : Extension F) (m : List (String × Extension F))
      → has_key k (Dict.insert String_discrete j v m)
        ≡ (ite (String_discrete j k) true false || has_key k m)
  has_key-insert k j v m = ground (arith, Dict.lookup-insert String_discrete j k v m)

  has_key-add_all :
      (k : String) (m ext : List (String × Extension F))
      → has_key k (add_all m ext) ≡ (has_key k m || has_key k ext)
  unfolding add_all Dict.lookup
  has_key-add_all k m [] = ground arith
  has_key-add_all k m ((j, v) ∷ ext) =
      ground
        (arith, has_key-add_all k (Dict.insert String_discrete j v m) ext, has_key-insert k j v m)

  has_key-combine_extensions :
      (gql : Gqlerrors F) (k : String) (m : List (String × Extension F)) (errs : List F)
      → has_key k (combine_extensions gql m errs) ≡ (has_key k m || any_has gql k errs)
  unfolding combine_extensions any_has
  has_key-combine_extensions gql k m [] = ground arith
  has_key-combine_extensions gql k m (err ∷ errs) =
      let ext = gql.extensions (format_error gql (formatted err)) in
      ground (arith, has_key-combine_extensions gql k (add_all m ext) errs, has_key-add_all k m ext)

  combine_errors-extensions :
      (gql : Gqlerrors F) (err err' : F) (errs : List F)
      → ((f : F) (m : List (String × Extension F)) → gql.extensions (gql.set_extensions f m) ≡ m)
      → gql.extensions (combine_errors gql (err ∷ err' ∷ errs))
        ≡ Dict.insert String_discrete "errors"
            (errors (err ∷ err' ∷ errs))
            (combine_extensions gql [] (err ∷ err' ∷ errs))
  unfolding combine_errors
  combine_errors-extensions gql err err' errs kept = kept _ _

  has_key-none : (gql : Gqlerrors F) (k : String) → has_key k [] ≡ false
  unfolding Dict.lookup
  has_key-none gql k = refl

  -- If the extensions of an error are those that it was given, two or more errors are combined into
  -- one that holds them all under the key "errors" of its extensions, and has another key exactly if
  -- one of the errors, formatted, has it.
  pub combine_errors_lem :
      (gql : Gqlerrors F) (err err' : F) (errs : List F)
      → ((f : F) (m : List (String × Extension F)) → gql.extensions (gql.set_extensions f m) ≡ m)
      → let all = err ∷ err' ∷ errs in
        let m = gql.extensions (combine_errors gql all) in
        (Dict.lookup String_discrete "errors" m ≡ some (errors all))
        × ((k : String)
            → has_key k m ≡ (ite (String_discrete "errors" k) true false || any_has gql k all))
  combine_errors_lem gql err err' errs kept =
      let all = err ∷ err' ∷ errs in
      let m = combine_extensions gql [] all in
      rw (combine_errors-extensions gql err err' errs kept) (
        Dict.lookup-insert_self String_discrete "errors" (errors all) m,
        λ k. ground (
          arith,
          has_key-insert k "errors" (errors all) m,
          has_key-combine_extensions gql k [] all,
          has_key-none gql k,
        ),
      )
