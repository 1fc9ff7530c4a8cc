-- ===== src/Dashboard.antt =====
-- The management dashboard (dashboard/src).
pub mod Types
pub mod Hooks
pub mod Client
pub mod Notice
pub mod Sites
pub mod Logs
pub mod Extensions
pub mod Json
pub mod Config
pub mod Tester
pub mod Nav
pub mod Overview
pub mod Deployments
