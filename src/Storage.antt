-- ===== src/Storage.antt =====
-- src/storage_server/storage_server.c
pub mod Register
pub mod Fs
pub mod Sentence
pub mod Commit
pub mod Serve
mod Tests
mod Witnesses
