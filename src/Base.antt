-- ===== src/Base.antt =====
-- src/base: bounded numbers and civil time.
pub mod Num
pub mod Time
