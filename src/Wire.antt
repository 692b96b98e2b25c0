-- ===== src/Wire.antt =====
-- protocol.go: the codecs of the wire format, from the tag octets up to the three headers.
pub mod Tag
pub mod Bvlc
pub mod Npdu
pub mod Apdu
pub mod ApplicationTag
pub mod Number
