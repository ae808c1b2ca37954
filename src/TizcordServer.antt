-- ===== src/TizcordServer.antt =====
-- server/tizcord_server.c: servers, their members, and the lists that clients are shown.
pub mod Collect
pub mod Lists
pub mod Requests
pub mod Stable
pub mod Guards
pub mod Admins
pub mod Limits
