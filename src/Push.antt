-- ===== src/Push.antt =====
-- src/push_queue/ and src/types/push.rs: the queue of remote effects, one item and its steps.
pub mod Mail
pub mod Item
pub mod Session
pub mod Steps
pub mod Execute
pub mod Perform
pub mod Plan
pub mod Labels
pub mod Planning
pub mod Build
pub mod Samples
pub mod Queue
pub mod Finalize
pub mod Run
pub mod Recovery
pub mod Pending
mod Tests
