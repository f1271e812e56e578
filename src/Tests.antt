-- ===== src/Tests.antt =====
-- Concrete inputs on which the theorems of the library are applied, and runs of the code.
pub mod World
mod Lookups
mod Updates
mod Queries
mod Requests
mod Answers
pub mod Systems
pub mod Handlers
mod Monitoring
mod Names
mod Pages
mod Comparisons
mod Environments
