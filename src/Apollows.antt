-- ===== src/Apollows.antt =====
-- v1/apollows/proto.go: the protocols, the kinds of messages, the errors that close a connection,
-- and the payloads.
--
-- Texts that name a protocol or a kind of message are data types with `unnamed` for every other
-- text; `…_of_string` reads one. `F` stands for `gqlerrors.FormattedError` of graphql-go, which the
-- program does not define; a JSON document is a text.
pub mod Errors
pub mod Names
pub mod Messages
pub mod Payloads
mod Tests
use wsgraphql.Prelude.{ℕ, String, String_discrete, Option, none, some, List, ite}

pub data Protocol : Type 0 where
  graphql_ws graphql_transport_ws : Protocol
  unnamed : String → Protocol

unfoldable pub protocol_of_string : String → Protocol
protocol_of_string s =
    ite (String_discrete s "graphql-ws") graphql_ws
      (ite (String_discrete s "graphql-transport-ws") graphql_transport_ws (unnamed s))

-- `Protocol.String`
unfoldable pub protocol_string : Protocol → String
protocol_string graphql_ws = "graphql-ws"
protocol_string graphql_transport_ws = "graphql-transport-ws"
protocol_string (unnamed s) = s

pub data Operation : Type 0 where
  connection_init start subscribe connection_terminate connection_error connection_ack : Operation
  data_message next error stop complete keep_alive ping pong : Operation
  unnamed : String → Operation

unfoldable pub operation_string : Operation → String
operation_string connection_init = "connection_init"
operation_string start = "start"
operation_string subscribe = "subscribe"
operation_string connection_terminate = "connection_terminate"
operation_string connection_error = "connection_error"
operation_string connection_ack = "connection_ack"
operation_string data_message = "data"
operation_string next = "next"
operation_string error = "error"
operation_string stop = "stop"
operation_string complete = "complete"
operation_string keep_alive = "ka"
operation_string ping = "ping"
operation_string pong = "pong"
operation_string (unnamed s) = s

unfoldable pub operation_of_string : String → Operation
operation_of_string s = ite (String_discrete s "connection_init") connection_init (
    ite (String_discrete s "start") start (
      ite (String_discrete s "subscribe") subscribe (
        ite (String_discrete s "connection_terminate") connection_terminate (
          ite (String_discrete s "connection_error") connection_error (
            ite (String_discrete s "connection_ack") connection_ack (
              ite (String_discrete s "data") data_message (
                ite (String_discrete s "next") next (
                  ite (String_discrete s "error") error (
                    ite (String_discrete s "stop") stop (
                      ite (String_discrete s "complete") complete (
                        ite (String_discrete s "ka") keep_alive (
                          ite (String_discrete s "ping") ping
                            (ite (String_discrete s "pong") pong (unnamed s))))))))))))))

-- `MessageType`: the code that a close frame carries.
abbrev pub MessageType : Type 0
MessageType = ℕ

abbrev pub event_close_normal : MessageType
event_close_normal = 1000

abbrev pub event_invalid_message : MessageType
event_invalid_message = 4400

abbrev pub event_unauthorized : MessageType
event_unauthorized = 4401

abbrev pub event_initialization_timeout : MessageType
event_initialization_timeout = 4408

abbrev pub event_too_many_initialization_requests : MessageType
event_too_many_initialization_requests = 4429

abbrev pub event_subscriber_already_exists : MessageType
event_subscriber_already_exists = 4409

mutual
  -- The types of error that the program tells apart; `wrapped` is any other, of that text, that
  -- wraps an error for `errors.As`.
  pub data Error (F : Type 0) : Type 0 where
    apollows : ApollowsError F → Error F
    result_error : Datum F → List F → Error F
    formatted : F → Error F
    graphql_error : String → Error F → List ℕ → Error F
    extended : String → ℕ → Error F
    plain : String → Error F
    wrapped : String → Error F → Error F

  -- `apollows.Error`: a bare code, or `errorImpl`.
  pub data ApollowsError (F : Type 0) : Type 0 where
    event : MessageType → ApollowsError F
    error_impl : Cause F → String → MessageType → ApollowsError F

  -- The embedded `error` of `errorImpl`, which may be nil.
  pub data Cause (F : Type 0) : Type 0 where
    no_cause : Cause F
    cause : Error F → Cause F

  -- `graphql.Result.Data`: an `interface{}` that the program asks whether it is an error.
  pub data Datum (F : Type 0) : Type 0 where
    nothing : Datum F
    json : String → Datum F
    failure : Error F → Datum F

-- `graphql.Result`
pub record Result (F : Type 0) : Type 0 where
  pub content : Datum F
  pub errors : List F

-- What `Data.Value` holds in this program; what a client decodes is named by a number.
pub data Body (F : Type 0) : Type 0 where
  nil : Body F
  raw : String → Body F
  one_error : F → Body F
  many_errors : List F → Body F
  result : Result F → Body F
  client_data : ℕ → Body F
  client_error : ℕ → Body F
  client_errors : ℕ → Body F

-- `Data`
pub record Data (F : Type 0) : Type 0 where
  pub value : Body F
  pub raw_message : String

-- `MessageRaw` and `Message`
pub record Message (F : Type 0) : Type 0 where
  pub id : String
  pub type : Operation
  pub payload : Data F

module _ {F : Type 0} where
  ptr_of : Body F → Data F → Option (Data F)
  ptr_of nil d = none
  ptr_of _ d = some d

  -- `Data.Ptr` of a non-nil receiver.
  unfoldable pub ptr : Data F → Option (Data F)
  unfolding ptr_of
  ptr d = ptr_of d.value d

  -- `Data.UnmarshalJSON`
  unfoldable pub unmarshal_json : String → Data F
  unmarshal_json bs = record { value = raw bs; raw_message = bs }

-- `PayloadOperation`; the two maps are named by numbers.
pub record PayloadOperation : Type 0 where
  pub variables : ℕ
  pub extensions : ℕ
  pub query : String
  pub operation_name : String
