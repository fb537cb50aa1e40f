-- ===== src/Protocol.antt =====
-- Package protocol: service addresses and permission bitmaps.
pub mod Bitmap
pub mod ServiceAddr
