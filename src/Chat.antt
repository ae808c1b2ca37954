-- ===== src/Chat.antt =====
-- server/tizcord_chat.c: messages of channels, direct messages and their histories.
pub mod Channel
pub mod Direct
pub mod Broadcast
pub mod Stable
