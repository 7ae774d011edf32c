-- ===== src/Library.antt =====
-- library/: the owner's page over what the server holds.
pub mod RateLimit
pub mod Session
pub mod TorrentFiles
pub mod Labels
pub mod Addon
