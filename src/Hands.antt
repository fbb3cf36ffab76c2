-- ===== src/Hands.antt =====
-- apps/mcp/src/hands: the tools that a project declares and that run with the user's consent.
pub mod Confirm
