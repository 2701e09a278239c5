-- ===== src/BufferPool/Unpin.antt =====
-- UnpinPage of minisql/src/buffer/buffer_pool_manager.cpp.
use zju_database_system.BufferPool.{BufferPool}
