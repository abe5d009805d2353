-- ===== src/Report.antt =====
-- scanner/reportscanner: the orchestrator that runs the scanners and builds the compliance report.
pub mod Types
pub mod Scan
pub mod Status
pub mod Assemble
pub mod Filter
pub mod Generate
pub mod Page
