-- ===== src/Stream.antt =====
-- stream/: which bytes a request asks for, and how they are served while they download.
pub mod Ranges
pub mod FileServer
