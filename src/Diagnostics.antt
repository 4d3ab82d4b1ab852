-- ===== src/Diagnostics.antt =====
-- pkg/diagnostics: the clients of the hardware diagnostics and of the switches.
pub mod Results
pub mod Dell
pub mod Aci
