-- ===== src/Relay.antt =====
-- packages/relay/src: the server that orders the operations of each brain's machines.
pub mod TextOrder
pub mod Tables
pub mod Store
pub mod Wire
pub mod Members
pub mod Ops
pub mod Poll
pub mod Join
pub mod Admin
pub mod Snapshot
