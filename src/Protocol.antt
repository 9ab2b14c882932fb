-- ===== src/Protocol.antt =====
-- The generated message structs (whad/protocol): the parts of `Message` that the library fills and
-- reads. Enumerations are C integers; a `char` array or `pb_byte_t` array is the list of its entries.
pub mod Bytes
pub mod Sensors
pub mod Pins
pub mod Inputs
pub mod Runtime
pub mod Streams
pub mod Kind
pub mod Payload
pub mod Buffer
pub mod Ble
pub mod Radio
pub mod Dot15d4
pub mod Phy
pub mod Message
