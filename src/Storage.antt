-- ===== src/Storage.antt =====
-- The storage engine, src/storage.
pub mod Types
pub mod Fpu
pub mod Cast
pub mod Codec
pub mod Crc
pub mod Wal
pub mod Files
pub mod Page
pub mod Buffer
pub mod Engine
pub mod Recovery
