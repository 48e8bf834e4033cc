-- ===== src/Tests.antt =====
-- Examples at concrete inputs, a module for each part.
pub mod Numbers
pub mod Keeper
pub mod Forecaster
pub mod MetricsLog
pub mod Reflector
pub mod Alerts
pub mod Reporter
pub mod Auth
pub mod Browser
pub mod SmartAccount
pub mod PauseHistory
pub mod Proposals
pub mod Api
pub mod Canonical
pub mod Panels
pub mod Series
pub mod Routes
