-- ===== src/Cache.antt =====
-- cache.py: the download cache under its size budget, the claim on its directory, and the records
-- that outlive the data.
pub mod Eviction
pub mod Pass
pub mod Owner
pub mod Resume
