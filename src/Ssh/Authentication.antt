-- ===== src/Ssh/Authentication.antt =====
-- The server's side of user authentication: ssh2_auths.c, with the branches that KPYM_HACK selects.
pub mod State
pub mod Responses
pub mod Request
pub mod Publickey
pub mod UserAuth
pub mod Server
pub mod Keeps
pub mod Grants
pub mod Users
