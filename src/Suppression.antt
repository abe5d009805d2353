-- ===== src/Suppression.antt =====
-- scanner/suppression: inline comments and the file `.pci-dss-mcp-ignore`.
pub mod IgnoreFile
pub mod Pattern
pub mod Apply
pub mod Packages
