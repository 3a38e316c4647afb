-- ===== src/Dir.antt =====
-- mds/CDir.cc and mds/CDir.h: a directory fragment in the cache.
pub mod Key
pub mod Types
pub mod Items
pub mod Snaps
pub mod Versions
pub mod Freeze
mod Tests
