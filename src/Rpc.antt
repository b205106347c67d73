-- ===== src/Rpc.antt =====
-- libp2p-rpc-behaviour: the RPC protocol of the node.
pub mod Bytes
pub mod Wire
pub mod Reached
pub mod Buffer
pub mod State
pub mod Event
pub mod Stream
pub mod Handler
pub mod Behaviour
pub mod Example
mod Tests
mod SwarmTests
