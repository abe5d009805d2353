-- ===== src/Examples.antt =====
-- The theorems at concrete inputs.
pub mod Data
mod Suppressions
mod Reports
mod Requirements
mod Texts
mod Sessions
mod Dependencies
mod Migrations
mod Sources
mod Configs
