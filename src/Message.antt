-- ===== src/Message.antt =====
-- The message component (imsdk/src/core/message).
pub mod Order
pub mod Cache
pub mod RangeStore
pub mod Send
pub mod JsonText
pub mod Table
pub mod Status
pub mod Store
pub mod Receive
pub mod Fetch
pub mod Incoming
