-- ===== src/Cost.antt =====
-- cost: what the SDK does to keep model calls cheap.
pub mod Dedup
