-- ===== src/Protocol.antt =====
-- src/habitat_state/protocol.py: the operations that each principal may call, the translation of a
-- request into a call of the repository, and the handler's answer to one frame.
pub mod Roles
pub mod Repository
pub mod Handler
pub mod ChangeRole
