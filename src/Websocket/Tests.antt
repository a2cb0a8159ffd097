-- ===== src/Websocket/Tests.antt =====
-- The theorems on a request, at states that schedules of the samples lead to.
use wsgraphql.Prelude.{
  OnSome, ◌+◌, ◌≤◌, ◌≡◌, refl, String, true, false, none, some, [], ◌∷◌, arith, length,
}
use wsgraphql.Context.{context_operation_stopped}
use wsgraphql.Apollows.{
  graphql_transport_ws, connection_init, subscribe, complete, plain, event, event_unauthorized,
  error, json,
}
use wsgraphql.Websocket.State.{Request, Task, streaming, System, exited, fired}
use wsgraphql.Websocket.Reader.{read_websocket_stop}
use wsgraphql.Websocket.Operations.{report, received, task_step}
use wsgraphql.Websocket.System.{
  reader, timer, receive, read_failed, tear_down, close_outgoing, send, write, timer_fires, begin,
  read,
}
use wsgraphql.Apollows.Errors.{new_subscriber_already_exists_error}
use wsgraphql.Websocket.Safety.{
  closed_after_all, panic_only_after_timer, operations_are_running, none_before_init,
}
use wsgraphql.Websocket.Stuck.{reader_waits_forever}
use wsgraphql.Websocket.Replies.{
  subscribes, closing, answers, told, unauthorized_before_init, duplicate_subscriber_refused,
  stop_reaches_operation, error_ends_operation,
}
use wsgraphql.Websocket.Progress.{request_ends}
use wsgraphql.Websocket.Accepting.{HasAccepted}
use wsgraphql.Websocket.Accepting.Started.{started_after_acceptance}
use wsgraphql.Websocket.Stopped.{OnlyReports, stopped_sends_only_errors}
use wsgraphql.Websocket.Run.{steps, final, final-Reach}
use wsgraphql.Websocket.Acks.{send_acks}
use wsgraphql.Websocket.Acks.Invariant.{sent_acks, inits_read}
use wsgraphql.Websocket.Acks.Once.{acknowledged_once}
use wsgraphql.Websocket.Samples.{
  env, machine, contexts, message_of, accepted, started, subscribed, ending, ending_and_late,
  running_system, first_task, fired_and_closed, abandoned_system,
}

operations_are_running_example : running_system.request.wg ≡ length running_system.tasks
operations_are_running_example =
    (operations_are_running env contexts 0 graphql_transport_ws false running_system
      (final-Reach env (started false) subscribed)).1

closed_after_all_example : fired_and_closed.reader ≡ exited
unfolding machine
closed_after_all_example =
    (closed_after_all env contexts 0 graphql_transport_ws true fired_and_closed
      (final-Reach env (started true) (timer_fires ∷ ending)) refl).0

none_before_init_example : (started false).tasks ≡ []
unfolding machine
none_before_init_example =
    none_before_init env contexts 0 graphql_transport_ws false (final env (started false) [])
      (final-Reach env (started false) []) refl

started_after_acceptance_example : HasAccepted env (final-Reach env (started false) subscribed)
unfolding machine
started_after_acceptance_example =
    started_after_acceptance env contexts 0 graphql_transport_ws false running_system
      (final-Reach env (started false) subscribed) 1 first_task refl refl

panic_only_after_timer_example :
    (final env (started true) (timer_fires ∷ ending_and_late)).timer ≡ fired
unfolding machine
panic_only_after_timer_example =
    panic_only_after_timer env contexts 0 graphql_transport_ws true
      (final env (started true) (timer_fires ∷ ending_and_late))
      (final-Reach env (started true) (timer_fires ∷ ending_and_late)) refl

reader_waits_forever_example :
    (final env abandoned_system (send timer ∷ write none ∷ [])).request.closed ≡ false
unfolding machine
reader_waits_forever_example =
    (reader_waits_forever env (message_of "" connection_init) contexts 0 graphql_transport_ws true
      abandoned_system (final env abandoned_system (send timer ∷ write none ∷ []))
      (final-Reach env (started true)
        (receive (message_of "" connection_init) accepted ∷ timer_fires ∷ []))
      refl (λ e. cc) (final-Reach env abandoned_system (send timer ∷ write none ∷ []))).1

unauthorized_before_init_example :
    read env (started false) (message_of "1" subscribe) accepted subscribe
    ≡ closing (started false) (event event_unauthorized)
unfolding begin
unauthorized_before_init_example =
    unauthorized_before_init env (started false) (message_of "1" subscribe) accepted subscribe
      subscribes refl

duplicate_subscriber_refused_example :
    read env running_system (message_of "1" subscribe) accepted subscribe
    ≡ closing running_system (new_subscriber_already_exists_error "1")
unfolding machine
duplicate_subscriber_refused_example =
    duplicate_subscriber_refused env running_system (message_of "1" subscribe) accepted 1 refl refl
      refl

stop_reaches_operation_example :
    context_operation_stopped
      (read_websocket_stop running_system.request (message_of "1" complete)).request.contexts
      1
    ≡ true
unfolding machine
stop_reaches_operation_example =
    (stop_reaches_operation running_system.request (message_of "1" complete) 1 refl refl
      (omega arith)).0

-- The operation waits for a result, and gets one after it was stopped.
abbrev halted : Request String
halted = (read_websocket_stop running_system.request (message_of "1" complete)).request

abbrev waiting_task : Task String
waiting_task = record first_task { phase = streaming }

stopped_sends_only_errors_example :
    OnSome
      (λ (r : Request String × Task String). OnlyReports r.1.sends)
      (task_step env halted 1 waiting_task []
        (received (record { content = json "1"; errors = [] })))
unfolding machine
stopped_sends_only_errors_example =
    stopped_sends_only_errors env halted 1 refl refl waiting_task
      (received (record { content = json "1"; errors = [] }))

error_ends_operation_example :
    (report env running_system.request 1 (some (plain "no such field"))).1
    ≡ answers "1" error (told env.gql (plain "no such field")) 0
unfolding machine
error_ends_operation_example =
    (error_ends_operation env running_system.request 1 0 (plain "no such field") tt refl refl refl
      (omega arith) refl).0

abbrev failed_system : System String
failed_system = final env (started false) (read_failed (plain "eof") ∷ send reader ∷ [])

request_ends_example :
    (t : System String) × (steps env (some failed_system) (tear_down ∷ close_outgoing ∷ [])
      ≡ some t)
    × (t.request.closed ≡ true)
    × (t.reader ≡ exited)
unfolding machine
request_ends_example =
    request_ends env contexts 0 graphql_transport_ws false failed_system
      (final-Reach env (started false) (read_failed (plain "eof") ∷ send reader ∷ [])) refl refl
      refl

acknowledged_once_example :
    sent_acks running_system + send_acks running_system.reader_sends
    ≤ inits_read running_system.request.init
acknowledged_once_example =
    acknowledged_once env contexts 0 graphql_transport_ws false running_system
      (final-Reach env (started false) subscribed)
