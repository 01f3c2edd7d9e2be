-- ===== src/Http.antt =====
-- The HTTP client (imsdk/base/network/HttpClient.cc): the texts that it makes and takes apart, the
-- builder of requests, and the path of a request. The transfer itself is boost::beast.
pub mod Base64
pub mod Url
pub mod Builder
pub mod Client
mod Tests
