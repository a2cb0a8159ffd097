-- ===== src/Apollows/Tests.antt =====
-- A message that starts an operation, sent and read back.
use wsgraphql.Prelude.{◌⊎◌, inl, inr, ℕ, String, some, List}
use wsgraphql.Apollows.{Error, plain, Body, raw, Message, start}
use wsgraphql.Apollows.Messages.{Json}

-- Only raw JSON can be marshalled.
abbrev refused : Body ℕ → Error ℕ ⊎ String
refused (raw s) = inr s
refused _ = inl (plain "json: unsupported value")

abbrev json : Json (List (String × String)) ℕ
json = record {
  quote = λ s. s;
  marshal = refused;
  marshaler_error = λ err. err;
  object = λ fields. fields;
  read_string = λ s. some s;
  read_object = λ fields. some fields;
}

abbrev message : Message ℕ
message = record {
  id = "1";
  type = start;
  payload = record { value = raw "{}"; raw_message = "{}" };
}
