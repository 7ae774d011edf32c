-- ===== src/Torrent.antt =====
-- torrent/: one torrent's handle, which pieces and files it fetches, and the policies over them.
pub mod Picker
pub mod Policy
pub mod Handle
pub mod Trackers
pub mod Engine
pub mod Wanted
pub mod Prefetch
