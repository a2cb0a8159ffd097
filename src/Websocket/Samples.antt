-- ===== src/Websocket/Samples.antt =====
-- A request under graphql-transport-ws, and schedules of it that the tests run.
use wsgraphql.Prelude.{
  ◌≡◌, refl, String, Bool, true, false, none, some, List, [], ◌∷◌, ℕ_discrete, String_discrete,
}
use wsgraphql.Prelude.Dict
use wsgraphql.Mutable
use wsgraphql.Mutable.{Store}
use wsgraphql.Context.{
  Contexts, Value, Key_discrete, get, put, request_context, mutable_context, request_context_of,
  operation_context_of, default_mutcontext, context_operation_stopped, context_operation_executed,
  context_operation_id,
}
use wsgraphql.Apollows.{
  graphql_transport_ws, Operation, connection_init, subscribe, plain, Message, nil,
}
use wsgraphql.Formatting.{Gqlerrors}
use wsgraphql.Results.{
  set_executed, process_result, target_errors, after_write, has_errors, data_errors,
}
use wsgraphql.Formatting.{format_error}
use wsgraphql.Websocket.State.{System, Task}
use wsgraphql.Websocket.Outgoing.{
  set_stopped, write_websocket_message, write_websocket_data, handle_error, send_failure, data_type,
}
use wsgraphql.Websocket.Channel.{try_send, try_give_up, attempt, give_up_at, frame_of, frames}
use wsgraphql.Websocket.Reader.{
  InitOutcome, called, hand, acknowledge, init_with, read_websocket_init, spawn, unless_running,
  read_websocket_start, stop_operation, read_websocket_stop, dispatch,
}
use wsgraphql.Websocket.Operations.{
  Environment, payload_error, write_data, after_result, report, finish, phase_step, task_step,
}
use wsgraphql.Websocket.System.{
  reader, timer, Event, receive, read_failed, tear_down, close_outgoing, send, write, timer_fires,
  begin, reader_sent, timer_sent, task_sent, task_attempt, send_step, write_step, fail, spawned,
  settle, initialise, connect, read, reader_step, timer_step, stepped, of_task_step, remove_task,
  leave_phase, leave_step, step,
}
use wsgraphql.Websocket.State.{starting}
use wsgraphql.Websocket.Run.{steps, final}

unfoldable pub gql : Gqlerrors String
gql = record {
  gql_format_error = λ e. "formatted";
  new_formatted_error = λ s. s;
  original_error = λ f. some (plain f);
  locations = λ f. [];
  extensions = λ f. [];
  set_extensions = λ f e. f;
  error_text = λ f. f;
}

unfoldable pub env : Environment String
unfolding gql
env = record { gql = gql; processor = λ r. r; unmarshal_init = λ s. none }

-- Everything that a schedule runs through.
unfoldable pub machine : Unit {0}
unfolding gql env step steps final begin reader_step read connect settle fail initialise spawned
    dispatch timer_step send_step reader_sent timer_sent task_sent task_attempt attempt try_send
    try_give_up give_up_at write_step frame_of frames of_task_step stepped task_step phase_step
    leave_step leave_phase remove_task handle_error write_websocket_message write_websocket_data
    send_failure set_stopped read_websocket_init init_with acknowledge hand read_websocket_start
    unless_running spawn request_context_of operation_context_of default_mutcontext get put
    Key_discrete Mutable.value Mutable.set Mutable.new_mutable_context Mutable.is_done
    Mutable.cancel Dict.lookup Dict.insert Dict.delete context_operation_id ℕ_discrete
    String_discrete set_executed report finish context_operation_executed context_operation_stopped
    payload_error read_websocket_stop stop_operation format_error process_result after_write
    after_result write_data data_type target_errors data_errors has_errors
machine = tt

-- The context of the HTTP request, which is its own request context.
abbrev pub contexts : Contexts
contexts = record {
  base_value = λ k. Value.nil;
  base_done = false;
  nodes =
      record {
        parent = none;
        values = (request_context, mutable_context 0) ∷ [];
        cancelled = false;
      }
      ∷ [];
}

abbrev pub message_of : String → Operation → Message String
message_of id t = record { id = id; type = t; payload = record { value = nil; raw_message = "" } }

abbrev pub accepted : InitOutcome String
accepted = record { handed = called; returned = none }

abbrev pub started : Bool → System String
started timeout = begin contexts 0 graphql_transport_ws timeout

abbrev pub subscribed : List (Event String)
subscribed =
    receive (message_of "" connection_init) accepted
    ∷ send reader
    ∷ write none
    ∷ receive (message_of "1" subscribe) accepted
    ∷ []

one_running : (final env (started false) subscribed).request.wg ≡ 1
unfolding machine
one_running = refl

-- The reader meets an error, and the request ends; with a timeout, its timer has fired before.
abbrev pub ending : List (Event String)
ending = read_failed (plain "eof") ∷ send reader ∷ tear_down ∷ close_outgoing ∷ []

abbrev pub ending_and_late : List (Event String)
ending_and_late =
    read_failed (plain "eof") ∷ send reader ∷ tear_down ∷ close_outgoing ∷ send timer ∷ []

abbrev pub running_system : System String
running_system = final env (started false) subscribed

abbrev pub first_task : Task String
first_task = record { id = "1"; phase = starting ""; sends = [] }

abbrev pub fired_and_closed : System String
fired_and_closed = final env (started true) (timer_fires ∷ ending)

abbrev pub abandoned_system : System String
abandoned_system =
    final env (started true) (receive (message_of "" connection_init) accepted ∷ timer_fires ∷ [])
