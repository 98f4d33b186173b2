-- ===== src/Base.antt =====
-- The base library, base/.
pub mod Date
pub mod LogStream
pub mod AsyncLogging
pub mod LogFile
pub mod Logging
pub mod BoundedBlockingQueue
pub mod ThreadPool
mod Tests
