-- ===== src/Platform.antt =====
-- platforms/linux/src/platform.c.
pub mod FdTable
pub mod Timer
pub mod Clock
