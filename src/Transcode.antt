-- ===== src/Transcode.antt =====
-- transcode/: the server's own encodes.
pub mod Converter
pub mod Master
