-- ===== src/Ssh/Channel.antt =====
-- Channel management: src/SSHServer/shared/cl-sources/ssh2_chn.c.
pub mod Find
pub mod Access
pub mod Attributes
pub mod Manage
pub mod Response
