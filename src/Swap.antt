-- ===== src/Swap.antt =====
-- The swap package: the state machines of the four roles and the service that drives them.
pub mod Error
pub mod Hex
pub mod Scid
pub mod Message
pub mod State
pub mod StateText
pub mod Data
pub mod Timelock
pub mod Services
pub mod Flow
pub mod Action
pub mod Context
pub mod Table
pub mod Machine
pub mod Service
pub mod Store
