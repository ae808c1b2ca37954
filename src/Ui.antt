-- ===== src/Ui.antt =====
-- client/ui.c: the state of the client's screens, and what keys and packets do to it.
pub mod State
pub mod Login
pub mod Messages
pub mod Servers
pub mod People
pub mod Network
pub mod Keys
pub mod Commands
pub mod Bounds
pub mod Loop
pub mod Delivery
pub mod Invariant
pub mod Tests
