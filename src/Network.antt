-- ===== src/Network.antt =====
-- The network layer (imsdk/src/core/network/connection and imsdk/base/network).
pub mod Message
pub mod RequestTracker
pub mod LongConnection
pub mod Json
pub mod Connection
