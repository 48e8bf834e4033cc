-- ===== src/Dashboard.antt =====
-- dashboard/src: the operators' dashboard, on its server's side.
pub mod ActionError
pub mod Auth
pub mod PauseHistory
pub mod Proposals
pub mod ApiError
pub mod AlertsConfig
pub mod Overview
pub mod Resource
pub mod Routes
pub mod Checklist
pub mod GuardianPanel
