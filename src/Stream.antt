-- ===== src/Stream.antt =====
-- The server's events and the client's state together: a client that follows a subscription shows
-- what the engine last evaluated.
pub mod Similar
pub mod Follow
pub mod Session
