-- ===== src/Client.antt =====
-- The C++ client library: client/src/kvclient.cpp and client/src/kvclientimpl.cpp.
mod Examples
pub mod Cpp
pub mod Rpc
pub mod Connection
pub mod Api
pub mod Async
