-- ===== src/Conversation.antt =====
-- The conversations (imsdk/src/core/conversation): the fetch of what is new to
-- a user, the table of conversations, and the cache over it.
pub mod Data
pub mod Fetcher
pub mod Table
pub mod Model
pub mod Store
mod Tests
