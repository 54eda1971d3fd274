-- ===== src/Native.antt =====
-- clients/rust/src/native: the backend over tokio, tungstenite and the webrtc crate.
pub mod Receive
pub mod Link
pub mod Actor
pub mod Game
