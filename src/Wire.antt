-- ===== src/Wire.antt =====
-- The wire protocol: message codes and formats, messages, and the serializer.
pub mod Array
pub mod Codes
pub mod Message
pub mod Format
pub mod Serialize
pub mod Deserialize
