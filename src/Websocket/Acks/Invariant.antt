-- ===== src/Websocket/Acks/Invariant.antt =====
-- What holds of the acknowledgements in every state of a request.
use wsgraphql.Prelude.{ℕ, ◌+◌, ◌≤◌, ℕ_discrete, ◌≡◌, Bool, true, false, some, List, arith}
use wsgraphql.Prelude.Dict
use wsgraphql.Websocket.State.{Reader, signalling, Task, System}
use wsgraphql.Websocket.Invariant.{task_at}
use wsgraphql.Websocket.Acks.{total, item_acks, frame_acks, send_acks}

abbrev pub awaiting : {F : Type 0} → Reader F → ℕ
awaiting (signalling msg) = 1
awaiting _ = 0

-- 1 once a `connection_init` message was read.
abbrev pub inits_read : Bool → ℕ
inits_read true = 1
inits_read false = 0

module _ {F : Type 0} where
  -- What is in the channel or on the wire.
  abbrev pub sent_acks : System F → ℕ
  sent_acks sys = total frame_acks sys.wire + total item_acks sys.request.outgoing

  abbrev pub Quiet : List (ℕ × Task F) → Type 0
  Quiet tasks = (a : ℕ) (t : Task F) → task_at a tasks ≡ some t → send_acks t.sends ≡ 0

  -- No task and no timer sends one, and the reader at most one.
  pub record Acked (sys : System F) : Type 0 where
    pub quiet : Quiet sys.tasks
    pub timer_quiet : send_acks sys.timer_sends ≡ 0
    pub once :
        sent_acks sys + send_acks sys.reader_sends + awaiting sys.reader
        ≤ inits_read sys.request.init

  pub insert-Quiet :
      (tasks : List (ℕ × Task F)) (a : ℕ) (t : Task F)
      → Quiet tasks
      → send_acks t.sends ≡ 0
      → Quiet (Dict.insert ℕ_discrete a t tasks)
  insert-Quiet tasks a t q h b u e =
      ground (arith, Dict.lookup-insert ℕ_discrete a b t tasks, q b u)

  pub delete-Quiet :
      (tasks : List (ℕ × Task F)) (a : ℕ) → Quiet tasks → Quiet (Dict.delete ℕ_discrete a tasks)
  delete-Quiet tasks a q b u e = ground (arith, Dict.lookup-delete ℕ_discrete a b tasks, q b u)
