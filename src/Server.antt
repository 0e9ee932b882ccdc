-- ===== src/Server.antt =====
-- syncedfs-daemon/server.c
pub mod Handlers
pub mod Session
pub mod Listening
pub mod Interruption
pub mod Keeps
pub mod Delivery
pub mod Stages
pub mod Rollback
