-- ===== src/Websocket/Invariant.antt =====
-- What holds of a websocket request in every state that it can come to.
mod Registry
mod Sending
mod Defs
mod Reading
mod Tasks
mod Steps
pub use Registry.{Core, task_at, no_task, operation_at}
pub use Defs.{Inv}
pub use Steps.{step-Inv, begin-Inv, Reach-Inv}
