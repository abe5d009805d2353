-- ===== src/Hybrid.antt =====
-- scanner/hybrid and scanner/hybridcache: results in a session cache, read page by page by cursors.
pub mod Cache
pub mod Cursor
pub mod Histogram
pub mod Select
