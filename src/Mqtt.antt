-- ===== src/Mqtt.antt =====
-- internal/mqtt: an MQTT 3.1.1 client.
pub mod Packet
pub mod Build
pub mod Decoder
pub mod Topic
pub mod Client
mod Tests
