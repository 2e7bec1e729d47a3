-- ===== src/Interface.antt =====
-- The interfaces of the channel driver, src/chan_extra/src/chan_extra.c: the list they are in, and
-- how one is found for a call.
pub mod Answer
pub mod Chain
pub mod Destroy
pub mod Extract
pub mod Insert
pub mod Links
pub mod Request
pub mod Route
pub mod Search
pub mod Sorted
mod Tests
