-- ===== src/Ssh/Authentication/Responses.antt =====
-- sendResponseSuccess, sendResponseFailure and checkCredentialsConsistent of ssh2_auths.c.
use bosh_dotnet.Prelude.{
  ℕ, Bool, true, false, not, ◌&&◌, List, [], ◌∷◌, ◌++◌, length, if◌then◌else◌,
}
use bosh_dotnet.Ssh.Status.{Status, ok, duplicate, invalid, is_error}
use bosh_dotnet.Ssh.Channel.Response.{uint32_bytes}
use bosh_dotnet.Ssh.Authentication.State.{AuthSession, AuthEnvironment, MethodType, method_query}

-- SSH2_MSG_USERAUTH_FAILURE and SSH2_MSG_USERAUTH_SUCCESS
abbrev pub msg_userauth_failure : ℕ
msg_userauth_failure = 51

abbrev pub msg_userauth_success : ℕ
msg_userauth_success = 52

-- "publickey,password"
abbrev pub allowed_methods : List ℕ
allowed_methods =
    112 ∷ 117 ∷ 98 ∷ 108 ∷ 105 ∷ 99 ∷ 107 ∷ 101 ∷ 121 ∷ 44 ∷ 112 ∷ 97 ∷ 115 ∷ 115 ∷ 119 ∷ 111 ∷ 114
    ∷ 100 ∷ []

-- writeString32
abbrev pub string32 : List ℕ → List ℕ
string32 bytes = uint32_bytes (length bytes) ++ bytes

-- The list of methods is empty when no further attempt is allowed, partial_success is FALSE.
abbrev pub failure_payload : Bool → List ℕ
failure_payload allow_further_auth =
    string32 (if allow_further_auth then allowed_methods else []) ++ 0 ∷ []

abbrev pub is_query : MethodType → Bool
is_query method_query = true
is_query _ = false

module _ (e : AuthEnvironment) where
  -- sendPacketSSH2
  abbrev pub send_packet : AuthSession → List ℕ → AuthSession × Status
  send_packet s packet =
      (record s { sent = packet ∷ s.sent }, e.send_packet_ssh2 (length s.sent) packet)

  unfoldable pub send_response_success : AuthSession → AuthSession × Status
  send_response_success s =
      let opened = e.open_packet_stream_ssh msg_userauth_success in
      if is_error opened then (s, opened) else send_packet s (msg_userauth_success ∷ [])

  unfoldable pub send_response_failure : AuthSession → Bool → AuthSession × Status
  send_response_failure s allow_further_auth =
      let payload = failure_payload allow_further_auth in
      let opened = e.open_packet_stream_ssh msg_userauth_failure in
      let written = e.write_payload payload in
      if is_error opened
      then (s, opened)
      else if is_error written
      then (s, written)
      else send_packet s (msg_userauth_failure ∷ payload)

  -- KPYM_HACK lets the method change between two attempts.
  unfoldable pub check_credentials_consistent :
      AuthSession → List ℕ → MethodType → Bool → AuthSession × Status
  check_credentials_consistent s name auth_method is_initial_auth =
      let hash = e.sha1 name in
      if is_initial_auth
      then (record s { auth_user_name_hash = hash; auth_type = auth_method }, ok)
      else if not (e.compare_data_const_time s.auth_user_name_hash hash)
      then (s, invalid)
      else if is_query s.auth_type && is_query auth_method
      then (s, duplicate)
      else if is_query s.auth_type
      then (record s { auth_type = auth_method }, ok)
      else (s, ok)
