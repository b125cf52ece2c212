-- ===== src/Mem.antt =====
-- src/mem: local accounting. A `cell::Cell` is a value that each operation takes and returns; the
-- thread and tag markers carry no data.
pub mod Account
pub mod Quota
pub mod Count
pub mod Balance
