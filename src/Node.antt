-- ===== src/Node.antt =====
-- The handlers of include/node: how a node answers a request, and the setup node's state.
pub mod Details
pub mod JoinText
pub mod Join
pub mod CofheNode
pub mod Root
pub mod Session
pub mod Client
mod Tests
