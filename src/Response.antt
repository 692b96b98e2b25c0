-- ===== src/Response.antt =====
-- client.go: the decoders of what a server answers.
pub mod Fields
pub mod Position
pub mod Acknowledgement
pub mod ReadProperty
pub mod Skip
pub mod Multiple
