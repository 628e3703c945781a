-- ===== src/Examples.antt =====
-- Runs on concrete inputs, and the theorems at inputs where their hypotheses hold.
mod Header
mod Stream
pub mod ConnMgr
mod Dispatcher
mod Permission
mod Routing
mod Workers
mod Sender
mod EventBus
mod Config
mod Register
mod Server
mod Actions
mod Rfcomm
mod Quic
mod Listeners
