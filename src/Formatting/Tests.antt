-- ===== src/Formatting/Tests.antt =====
-- Errors that are a text and their extensions.
use wsgraphql.Prelude.{◌≡◌, refl, ap, String, String_discrete, some, List, [], ◌∷◌}
use wsgraphql.Prelude.Dict
use wsgraphql.Apollows.{plain}
use wsgraphql.Formatting.{Extension, value, errors, Gqlerrors, combine_errors}
use wsgraphql.Formatting.Laws.{combine_errors_lem}

mutual
  data Detailed : Type 0 where
    detailed : String → Entries → Detailed

  data Entries : Type 0 where
    no_entries : Entries
    note : String → String → Entries → Entries
    parts : String → Group → Entries → Entries

  data Group : Type 0 where
    alone : Group
    more : Detailed → Group → Group

abbrev to_group : List Detailed → Group
to_group [] = alone
to_group (d ∷ ds) = more d (to_group ds)

abbrev of_group : Group → List Detailed
of_group alone = []
of_group (more d g) = d ∷ of_group g

abbrev to_entries : List (String × Extension Detailed) → Entries
to_entries [] = no_entries
to_entries ((k, value s) ∷ m) = note k s (to_entries m)
to_entries ((k, errors ds) ∷ m) = parts k (to_group ds) (to_entries m)

abbrev of_entries : Entries → List (String × Extension Detailed)
of_entries no_entries = []
of_entries (note k s es) = (k, value s) ∷ of_entries es
of_entries (parts k g es) = (k, errors (of_group g)) ∷ of_entries es

of_group-to_group : (ds : List Detailed) → of_group (to_group ds) ≡ ds
of_group-to_group [] = refl
of_group-to_group (d ∷ ds) = ap (λ r. d ∷ r) (of_group-to_group ds)

of_entries-to_entries : (m : List (String × Extension Detailed)) → of_entries (to_entries m) ≡ m
of_entries-to_entries [] = refl
of_entries-to_entries ((k, value s) ∷ m) = ap (λ r. (k, value s) ∷ r) (of_entries-to_entries m)
of_entries-to_entries ((k, errors ds) ∷ m) =
    λ j. (k, errors (of_group-to_group ds j)) ∷ of_entries-to_entries m j

abbrev text_of : Detailed → String
text_of (detailed s es) = s

abbrev entries_of : Detailed → Entries
entries_of (detailed s es) = es

abbrev gql : Gqlerrors Detailed
gql = record {
  gql_format_error = λ e. detailed "formatted" no_entries;
  new_formatted_error = λ s. detailed s no_entries;
  original_error = λ f. some (plain (text_of f));
  locations = λ f. [];
  extensions = λ f. of_entries (entries_of f);
  set_extensions = λ f m. detailed (text_of f) (to_entries m);
  error_text = text_of;
}

abbrev one : Detailed
one = detailed "one" (note "code" "1" no_entries)

abbrev two : Detailed
two = detailed "two" no_entries

combine_errors_lem_example :
    Dict.lookup String_discrete "errors" (gql.extensions (combine_errors gql (one ∷ two ∷ [])))
    ≡ some (errors (one ∷ two ∷ []))
combine_errors_lem_example = (combine_errors_lem gql one two [] (λ f. of_entries-to_entries)).0
