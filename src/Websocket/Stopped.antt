-- ===== src/Websocket/Stopped.antt =====
-- v1/server_websocket.go: what the goroutine of a stopped operation still sends.
use wsgraphql.Prelude.{ℕ, ◌≡◌, refl, true, Option, none, some, List, [], ◌∷◌, OnSome, if_both, All}
use wsgraphql.Mutable.{is_done}
use wsgraphql.Context.{context_operation_stopped, context_operation_executed}
use wsgraphql.Apollows.{graphql_transport_ws, error, Error, apollows, result_error, Result}
use wsgraphql.Websocket.State.{
  OutgoingMessage, message, failure, Send, Request, Phase, starting, running, streaming, served,
  finishing, completing, Task,
}
use wsgraphql.Websocket.Outgoing.{
  write_websocket_message, write_websocket_data, handle_error, send_failure,
}
use wsgraphql.Results.{process_result, after_write}
use wsgraphql.Websocket.Operations.{
  Environment, TaskEvent, unreadable, readable, results, received, closed, context_done, returned,
  check_error, check_complete, write_data, after_result, report, finish, phase_step, task_step,
}

-- A message of type `error`, or an error to close the connection with.
abbrev pub IsReport : {F : Type 0} → OutgoingMessage F → Type 0
IsReport (message m) = m.type ≡ error
IsReport (failure e) = Unit {0}

abbrev pub OnlyReports : {F : Type 0} → List (Send F) → Type 0
OnlyReports sends = All (λ s. IsReport s.item) sends

module _ {F : Type 0} (env : Environment F) (req : Request F) (opctx : ℕ)
    (ws : req.protocol ≡ graphql_transport_ws)
    (stopped : context_operation_stopped req.contexts opctx ≡ true) where
  handle_error-OnlyReports : (err : Error F) → OnlyReports (handle_error env.gql req opctx err).1
  unfolding handle_error send_failure write_websocket_message
  handle_error-OnlyReports (apollows awerr) = rw ws (tt, tt)
  handle_error-OnlyReports (result_error content errors) = (refl, tt)
  handle_error-OnlyReports err = (refl, tt)

  report-OnlyReports : (operr : Option (Error F)) → OnlyReports (report env req opctx operr).1
  unfolding report
  report-OnlyReports none = tt
  report-OnlyReports (some err) =
      if_both (λ (r : Request F × List (Send F)). OnlyReports r.1)
        (context_operation_executed req.contexts opctx) (λ _. tt)
        (λ _. handle_error-OnlyReports err)

  no_data : (res : Result F) → write_websocket_data req opctx res ≡ (req, [])
  unfolding write_websocket_data
  no_data res = rw (ws, stopped) refl

  no_complete : finish req opctx ≡ (req, [])
  unfolding finish
  no_complete = rw (ws, stopped) refl

  after_result-OnlyReports :
      (t : Task F) (r : (Request F × List (Send F)) × Option (Error F))
      → OnlyReports r.0.1
      → OnlyReports (after_result t r).1.sends
  unfolding after_result
  after_result-OnlyReports t ((req', sends), none) h = h
  after_result-OnlyReports t ((req', sends), some err) h = h

  abbrev Reports : Request F × Task F → Type 0
  Reports (req', t') = OnlyReports t'.sends

  phase_step-OnlyReports :
      (t : Task F) (p : Phase F) (ev : TaskEvent F)
      → OnlyReports t.sends
      → OnSome Reports (phase_step env req opctx t p ev)
  unfolding phase_step process_result after_write write_data
  phase_step-OnlyReports t (starting raw) (unreadable err text) h = h
  phase_step-OnlyReports t (starting raw) readable h = h
  phase_step-OnlyReports t running (returned operr) h = h
  phase_step-OnlyReports t running results h = h
  phase_step-OnlyReports t (served _) results h = h
  phase_step-OnlyReports t streaming (received res) h = after_result-OnlyReports t _ (rw no_data tt)
  phase_step-OnlyReports t streaming closed h = h
  phase_step-OnlyReports t streaming (context_done err) h =
      if_both (OnSome Reports) (is_done req.contexts opctx) (λ _. h) (λ _. tt)
  phase_step-OnlyReports t (served _) (returned operr) h = h
  phase_step-OnlyReports t (finishing operr) check_error h = report-OnlyReports operr
  phase_step-OnlyReports t completing check_complete h = rw no_complete tt
  phase_step-OnlyReports t _ _ h = tt

  task_step_sends :
      (t : Task F) (sends : List (Send F)) (ev : TaskEvent F)
      → t.sends ≡ sends
      → OnSome Reports (task_step env req opctx t sends ev)
  unfolding task_step
  task_step_sends t [] ev e = phase_step-OnlyReports t t.phase ev (rw e tt)
  task_step_sends t (_ ∷ _) ev e = tt

  -- Under graphql-transport-ws, take any step of the goroutine of an operation that is marked as
  -- stopped, at a point where the goroutine has nothing left to send from before: after the step it has
  -- nothing to send but errors, so neither a result nor a complete message.
  pub stopped_sends_only_errors :
      (t : Task F) (ev : TaskEvent F)
      → OnSome
          (λ (r : Request F × Task F). OnlyReports r.1.sends)
          (task_step env req opctx t t.sends ev)
  stopped_sends_only_errors t ev = task_step_sends t t.sends ev refl
