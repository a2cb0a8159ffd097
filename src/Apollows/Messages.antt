-- ===== src/Apollows/Messages.antt =====
-- v1/apollows/proto.go: messages as JSON, by the tags of `MessageRaw` and by `MarshalJSON`.
--
-- encoding/json is a parameter. `D` are the documents, of which the program sees the fields of an
-- object; a field is a name and a text.
use wsgraphql.Prelude.{
  ◌⊎◌, inl, inr, ◌≡◌, String, String_discrete, Option, none, some, List, [], ◌∷◌, ◌++◌, ite,
}
use wsgraphql.Prelude.Dict
use wsgraphql.Apollows.{
  Error, Body, nil, Data, Message, operation_string, operation_of_string, ptr, unmarshal_json,
}

-- `json.Marshal` of a string, of a value, which may fail, and of a struct, and what `json.Unmarshal`
-- reads of them. `marshaler_error` is the `*json.MarshalerError` around an error of `MarshalJSON`.
pub record Json (D F : Type 0) : Type 0 where
  pub quote : String → String
  pub marshal : Body F → Error F ⊎ String
  pub marshaler_error : Error F → Error F
  pub object : List (String × String) → D
  pub read_string : String → Option String
  pub read_object : D → Option (List (String × String))

module _ {D F : Type 0} (json : Json D F) where
  -- `Data.MarshalJSON`
  unfoldable pub marshal_json : Data F → Error F ⊎ String
  marshal_json d = json.marshal d.value

  unfoldable pub marshaled_field :
      (name : String) → Error F ⊎ String → Error F ⊎ List (String × String)
  marshaled_field name (inl err) = inl (json.marshaler_error err)
  marshaled_field name (inr text) = inr ((name, text) ∷ [])

  -- A pointer field with `omitempty`.
  unfoldable pub pointer_field :
      (name : String) → Option (Data F) → Error F ⊎ List (String × String)
  unfolding marshal_json marshaled_field
  pointer_field name none = inr []
  pointer_field name (some d) = marshaled_field name (marshal_json d)

  unfoldable pub string_field : (name text : String) → List (String × String)
  string_field name text = ite (String_discrete text "") [] ((name, json.quote text) ∷ [])

  -- An object of a field that may fail, and others.
  unfoldable pub object_of : Error F ⊎ List (String × String) → List (String × String) → Error F ⊎ D
  object_of (inl err) fields = inl err
  object_of (inr first) fields = inr (json.object (first ++ fields))

  -- `Message.MarshalJSON`; the outer `Payload` hides that of `MessageRaw`.
  unfoldable pub marshal_message : Message F → Error F ⊎ D
  marshal_message m =
      object_of (pointer_field "payload" (ptr m.payload))
        (string_field "id" m.id ++ ("type", json.quote (operation_string m.type)) ∷ [])

  read_field : Option String → Option String
  read_field none = some ""
  read_field (some text) = json.read_string text

  payload_of : Option String → Data F
  payload_of none = record { value = nil; raw_message = "" }
  payload_of (some text) = unmarshal_json text

  from_texts : Data F → Option String → Option String → Option (Message F)
  from_texts payload (some id) (some type) =
      some (record { id = id; type = operation_of_string type; payload = payload })
  from_texts payload _ _ = none

  from_fields : Option (List (String × String)) → Option (Message F)
  unfolding read_field payload_of from_texts
  from_fields none = none
  from_fields (some fields) =
      from_texts (payload_of (Dict.lookup String_discrete "payload" fields))
        (read_field (Dict.lookup String_discrete "id" fields))
        (read_field (Dict.lookup String_discrete "type" fields))

  -- `json.Unmarshal` into a `Message`; `none` stands for an error.
  unfoldable pub unmarshal_message : D → Option (Message F)
  unfolding from_fields
  unmarshal_message doc = from_fields (json.read_object doc)

  -- The payload on the other side, or the error of `json.Marshal`.
  unfoldable pub received_text : Error F ⊎ String → Error F ⊎ Data F
  received_text (inl err) = inl err
  received_text (inr text) = inr (unmarshal_json text)

  unfoldable pub received : Option (Data F) → Error F ⊎ Data F
  unfolding received_text
  received none = inr (record { value = nil; raw_message = "" })
  received (some d) = received_text (json.marshal d.value)

  -- A text that `json.Marshal` gives.
  abbrev pub IsMarshaled : String → Type 0
  IsMarshaled text =
      ((s : String) × (text ≡ json.quote s)) ⊎ ((v : Body F) × (json.marshal v ≡ inr text))

  -- Fields of different names, of texts that `json.Marshal` gives.
  abbrev pub IsObject : List (String × String) → Type 0
  IsObject [] = Unit {0}
  IsObject ((name, text) ∷ fields) =
      (Dict.lookup String_discrete name fields ≡ none) × IsMarshaled text × IsObject fields

  -- What comes of a message: its payload's error, or a document that is read back as a message of its
  -- id, the text of its type, and the payload on the other side.
  abbrev pub Arrives : Message F → Error F ⊎ Data F → Type 0
  Arrives m (inl err) = marshal_message m ≡ inl (json.marshaler_error err)
  Arrives m (inr payload) =
      (doc : D) × (m' : Message F) × (marshal_message m ≡ inr doc)
      × (unmarshal_message doc ≡ some m')
      × (m'.id ≡ m.id)
      × (operation_string m'.type ≡ operation_string m.type)
      × (m'.payload ≡ payload)

module _ {D F : Type 0} (json : Json D F)
    (strings : (s : String) → json.read_string (json.quote s) ≡ some s)
    (objects : (fields : List (String × String))
      → IsObject json fields
      → json.read_object (json.object fields) ≡ some fields) where
  -- The fields of a message after its payload.
  abbrev fields_of : Message F → List (String × String)
  fields_of m = string_field json "id" m.id ++ ("type", json.quote (operation_string m.type)) ∷ []

  -- The message with this payload on the other side.
  abbrev arrived : Message F → Data F → Message F
  arrived m payload = record {
    id = m.id;
    type = operation_of_string (operation_string m.type);
    payload = payload;
  }
