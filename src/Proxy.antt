-- ===== src/Proxy.antt =====
-- proxy/: what passes through the server on its way from another one.
pub mod Playlist
pub mod Opts
pub mod Dest
