-- ===== src/Sdk.antt =====
-- sdk/src: what the development kit does by itself.
pub mod SmartAccount
