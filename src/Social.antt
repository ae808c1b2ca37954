-- ===== src/Social.antt =====
-- server/tizcord_social.c: friendships, user lists and status texts.
pub mod Notify
pub mod Requests
pub mod Stable
