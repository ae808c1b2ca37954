-- ===== src/Server.antt =====
-- server/server.c: connections, the dispatch of packets, and the rounds of the event loop.
pub mod Loop
pub mod Invariant
pub mod Logins
pub mod Accounts
pub mod Rounds
pub mod Sweep
pub mod Tests
pub mod Memory
