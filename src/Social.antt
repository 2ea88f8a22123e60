-- ===== src/Social.antt =====
-- app/social: the follow graph, and the moderation of what users publish.
pub mod Graph
pub mod Inbox
pub mod Session
pub mod Moderation
pub mod Safety
pub mod Comments
