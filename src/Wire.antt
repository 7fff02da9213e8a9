-- ===== src/Wire.antt =====
-- The text protocol of include/node: decimal headers read back with string streams, and the data behind
-- them.
pub mod Decimal
pub mod Stream
pub mod Outcome
pub mod Fields
pub mod Enums
pub mod RequestTypes
pub mod Headed
pub mod Messages
pub mod Lined
pub mod Envelope
mod Tests
