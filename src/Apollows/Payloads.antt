-- ===== src/Apollows/Payloads.antt =====
-- v1/apollows/proto.go: the payloads that carry the result of an operation.
--
-- `io.ErrUnexpectedEOF` is an error of a text; `json.Unmarshal` is a parameter.
use wsgraphql.Prelude.{ℕ, String, Option, none, some, List, [], ◌∷◌, ◌++◌, ◌⊎◌, inl, inr}
use wsgraphql.Apollows.{Error, plain, Body, Data, client_data, client_error, client_errors, ptr}
use wsgraphql.Apollows.Messages.{Json, pointer_field}

-- `PayloadDataRaw` and `PayloadData`
pub record PayloadData (F : Type 0) : Type 0 where
  pub content : Data F
  pub errors : List (Error F)

module _ {D F : Type 0} (json : Json D F) (marshal_errors : List (Error F) → Error F ⊎ String) where
  unfoldable pub errors_text : Error F ⊎ String → Error F ⊎ List (String × String)
  errors_text (inl err) = inl err
  errors_text (inr text) = inr (("errors", text) ∷ [])

  unfoldable pub errors_field : List (Error F) → Error F ⊎ List (String × String)
  errors_field [] = inr []
  errors_field (e ∷ es) = errors_text (marshal_errors (e ∷ es))

  -- The fields are marshalled in their order, up to the first that fails.
  unfoldable pub payload_object :
      Error F ⊎ List (String × String) → Error F ⊎ List (String × String) → Error F ⊎ D
  payload_object (inl err) errors = inl err
  payload_object (inr data_field) (inl err) = inl err
  payload_object (inr data_field) (inr errors) = inr (json.object (data_field ++ errors))

  -- `PayloadData.MarshalJSON`
  unfoldable pub marshal_payload_data : PayloadData F → Error F ⊎ D
  marshal_payload_data payload =
      payload_object (pointer_field json "data" (ptr payload.content)) (errors_field payload.errors)

-- What the three methods return, and what they leave of the receiver.
pub record Read (F : Type 0) : Type 0 where
  pub receiver : Option (Data F)
  pub payload : Option ℕ
  pub err : Option (Error F)

module _ {F : Type 0} (unmarshal : String → Error F ⊎ ℕ) where
  unmarshalled : (ℕ → Body F) → Data F → Error F ⊎ ℕ → Read F
  unmarshalled body d (inl err) = record { receiver = some d; payload = none; err = some err }
  unmarshalled body d (inr pd) = record {
    receiver = some (record d { value = body pd });
    payload = some pd;
    err = none;
  }

  read_payload : (ℕ → Body F) → Option (Data F) → Read F
  unfolding unmarshalled
  read_payload body none = record {
    receiver = none;
    payload = none;
    err = some (plain "unexpected EOF");
  }
  read_payload body (some d) = unmarshalled body d (unmarshal d.raw_message)

  -- `Data.ReadPayloadData`
  unfoldable pub read_payload_data : Option (Data F) → Read F
  unfolding read_payload
  read_payload_data = read_payload client_data

  -- `Data.ReadPayloadError`
  unfoldable pub read_payload_error : Option (Data F) → Read F
  unfolding read_payload
  read_payload_error = read_payload client_error

  -- `Data.ReadPayloadErrors`
  unfoldable pub read_payload_errors : Option (Data F) → Read F
  unfolding read_payload
  read_payload_errors = read_payload client_errors
