-- ===== src/Types.antt =====
-- include/lmqtt_types.h: the enumerations of the protocol and the tables over them.
pub mod Packet
pub mod Property
pub mod Payload
pub mod Tables
