-- ===== src/Dependency.antt =====
-- scanner/depscanner: the vulnerabilities of the dependencies.
pub mod Osv
pub mod Severities
pub mod CacheFile
pub mod Report
