-- ===== src/Recording.antt =====
-- The recording of streamed answers, src/service/recording/: what is kept of one stream while it is
-- passed on, and what is written of it.
pub mod Calls
pub mod Session
pub mod State
pub mod Forwarding
pub mod Budget
pub mod Once
pub mod Finished
pub mod Kept
pub mod Starting
pub mod Closing
pub mod Quiet
pub mod Success
