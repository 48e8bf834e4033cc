-- ===== src/Keeper.antt =====
-- keeper/src: the off-chain loops.
pub mod Sentinel
pub mod Swap
pub mod Forecaster
pub mod MetricsLog
pub mod ForecasterLoop
pub mod Reflector
pub mod Alerts
pub mod Reporter
