-- ===== src/Daemon.antt =====
-- include/nexusd/daemon/config.hpp: how the daemon gets its configuration from its command line.
pub mod Config
pub mod Options
pub mod Wiring
pub mod Unrouted
pub mod Isolation
