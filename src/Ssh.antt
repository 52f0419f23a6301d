-- ===== src/Ssh.antt =====
-- The SSH layer of the server: src/SSHServer/shared/cl-sources.
pub mod Status
pub mod Session
pub mod Environment
pub mod Channel
pub mod Message
pub mod Reading
pub mod Authentication
mod Tests
