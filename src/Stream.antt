-- ===== src/Stream.antt =====
-- src/core/iostream.{h,cc}: a non-blocking stream with its buffers and callbacks.
pub mod Monad
pub mod Close
pub mod Read
pub mod Ready
pub mod Write
pub mod Front
pub mod Branches
pub mod Delimiter
pub mod Idle
pub mod Arrive
pub mod New
pub mod Counted
pub mod Streamed
pub mod Flushed
pub mod Shutdown
pub mod Round
pub mod Sending
pub mod Written
pub mod Refused
