-- ===== src/Ssh/Authentication/State.antt =====
-- What ssh2_auths.c reads and writes of the session, and what it calls outside this repository.
use bosh_dotnet.Prelude.{ℕ, ◌≡◌, ◌≢◌, Bool, true, List, [], ◌∷◌, ◌++◌, Option, some, get_elem?}
use bosh_dotnet.Ssh.Status.{Status, ok}

-- METHOD_TYPE
pub data MethodType : Type 0 where
  method_none method_query method_password method_publickey : MethodType

-- CREDENTIAL_TYPE
pub data CredentialType : Type 0 where
  credential_none credential_username credential_username_password : CredentialType

-- USERAUTH_TYPE
pub data UserAuthType : Type 0 where
  userauth_none userauth_success userauth_callercheck userauth_noop userauth_error : UserAuthType

-- AUTHRESPONSE_TYPE
pub data AuthResponse : Type 0 where
  authresponse_none authresponse_success authresponse_failed : AuthResponse

-- CRYPT_SESSINFO_USERNAME, CRYPT_SESSINFO_PASSWORD, and the attributes of other kinds.
pub data SessionInfo : Type 0 where
  user_name password : SessionInfo
  other_info : ℕ → SessionInfo

-- An item of the session's attribute list.
pub record AuthAttribute : Type 0 where
  pub attribute_id : SessionInfo
  pub value : List ℕ

-- The fields of SESSION_INFO and SSH_INFO. A pointer into the attribute list is its position.
-- `publickey` is the global ke_publickey of ssh2_svr.c, `none` while ke_publickey_len is -1.
-- `packets_read` counts the handshake packets asked for, and `sent` holds the packets handed to
-- sendPacketSSH2, the newest first.
pub record AuthSession : Type 0 where
  pub attributes : List AuthAttribute
  pub attribute_list_current : Option ℕ
  pub auth_user_name_hash : List ℕ
  pub auth_type : MethodType
  pub auth_read : Bool
  pub auth_response : AuthResponse
  pub publickey : Option (List ℕ)
  pub packets_read : ℕ
  pub sent : List (List ℕ)

-- The numbers of an RSA key, or of a DSA key, as they stand in the key's encoding.
pub data PublicKey : Type 0 where
  rsa : (e n : List ℕ) → PublicKey
  dsa : (p q g y : List ℕ) → PublicKey

-- The client, as the answers to readHSPacketSSH2 by the number of the packet and the least length;
-- the readers of streams by the largest length; and the library. `open_packet_stream_ssh` takes the
-- packet type, `write_payload` is the status of the stream once the bytes are written, and
-- `send_packet_ssh2` takes the number of packets that were sent before. `load_key` stands for the
-- calls that make a context of the key, `create_hash_context` for the call that makes one of SHA-1,
-- `hash_data` for those that hash, each for their first error.
pub record AuthEnvironment : Type 0 where
  pub read_hs_packet_ssh2 : ℕ → ℕ → Status × List ℕ
  pub read_string32 : ℕ → List ℕ → Status × List ℕ × List ℕ
  pub sgetc : List ℕ → Option ℕ × List ℕ
  pub open_packet_stream_ssh : ℕ → Status
  pub write_payload : List ℕ → Status
  pub send_packet_ssh2 : ℕ → List ℕ → Status
  pub sha1 : List ℕ → List ℕ
  pub compare_data_const_time : List ℕ → List ℕ → Bool
  pub find_session_info_ex : List AuthAttribute → SessionInfo → List ℕ → Option ℕ
  pub add_session_info_s : List AuthAttribute → SessionInfo → List ℕ → Status × List AuthAttribute
  pub update_session_info : List AuthAttribute → SessionInfo → List ℕ → Status × List AuthAttribute
  pub s_mem_connect : List ℕ → Status
  pub load_key : PublicKey → Status
  pub create_hash_context : Status
  pub hash_data : List ℕ → Status
  pub check_signature : PublicKey → (hashed signature : List ℕ) → Status
  pub destroy_hash_context : Status
  pub destroy_check_context : Status
  pub base64encode : List ℕ → Status × Option (List ℕ)
  pub session_id : List ℕ  -- ke_sessionID

abbrev pub with_name : SessionInfo → List ℕ → List (List ℕ) → List (List ℕ)
with_name user_name name l = name ∷ l
with_name _ name l = l

-- The user names in the attribute list, in order.
abbrev pub user_names : List AuthAttribute → List (List ℕ)
user_names [] = []
user_names (a ∷ l) = with_name a.attribute_id a.value (user_names l)

-- What these functions are documented to do.
pub record AuthDocumented (e : AuthEnvironment) : Type 0 where
  pub compares : (a b : List ℕ) → e.compare_data_const_time a b ≡ true → a ≡ b
  pub compares_same : (a : List ℕ) → e.compare_data_const_time a a ≡ true
  pub finds :
      (l : List AuthAttribute) (id : SessionInfo) (value : List ℕ) (i : ℕ)
      → e.find_session_info_ex l id value ≡ some i
      → get_elem? l i ≡ some (record { attribute_id = id; value = value })
  pub adds_user :
      (l : List AuthAttribute) (name : List ℕ)
      → (e.add_session_info_s l user_name name).0 ≡ ok
      → user_names (e.add_session_info_s l user_name name).1 ≡ user_names l ++ name ∷ []
  pub refuses_user :
      (l : List AuthAttribute) (name : List ℕ)
      → (e.add_session_info_s l user_name name).0 ≢ ok
      → (e.add_session_info_s l user_name name).1 ≡ l
  pub updates_password :
      (l : List AuthAttribute) (value : List ℕ)
      → user_names (e.update_session_info l password value).1 ≡ user_names l
