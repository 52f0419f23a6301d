-- ===== src/Ssh/Authentication/Server.antt =====
-- processFixedAuth and processServerAuth of ssh2_auths.c.
pub mod Fixed
pub mod Retry
pub mod Attempts
pub mod Accepts
pub mod Passes
use bosh_dotnet.Prelude.{ℕ, zero, suc, Bool, true, false, not, ◌&&◌, ◌||◌, if◌then◌else◌, ◌==◌}
use bosh_dotnet.Ssh.Status.{
  Status, ok, ok_special, internal, wrong_key, failed, envelope_resource, is_error, is_special,
}
use bosh_dotnet.Ssh.Authentication.State.{
  AuthSession, AuthEnvironment, CredentialType, credential_none, credential_username,
  credential_username_password, UserAuthType, userauth_none, userauth_success, AuthResponse,
  authresponse_none, authresponse_success,
}
use bosh_dotnet.Ssh.Authentication.Responses.{send_response_success, send_response_failure}
use bosh_dotnet.Ssh.Authentication.Publickey.{Verdict}
use bosh_dotnet.Ssh.Authentication.UserAuth.{is_noop, is_success, process_user_auth}

-- FAILSAFE_AUTH_INFO
pub record FailsafeAuthInfo : Type 0 where
  pub user_auth_info : UserAuthType
  pub canary : Status
  pub status : Status

abbrev pub is_wrong_key : Status → Bool
is_wrong_key wrong_key = true
is_wrong_key _ = false

-- The comparison with failsafeAuthSuccessTemplate.
abbrev pub matches_template : FailsafeAuthInfo → Bool
matches_template a = is_success a.user_auth_info && is_special a.canary && not (is_error a.status)

abbrev pub accepted : AuthResponse → Bool
accepted authresponse_success = true
accepted _ = false

module _ (e : AuthEnvironment) where
  -- A method query is a dummy read, which is tried a second time.
  abbrev pub again_after_noop : Verdict → CredentialType → Verdict
  again_after_noop (s, info, st) credential =
      if is_special st && is_noop info
      then process_user_auth e s credential false
      else (s, info, st)

  -- One attempt, and the fail-safe record of what came of it.
  unfoldable pub attempt : AuthSession → Bool → AuthSession × FailsafeAuthInfo
  attempt s initial =
      let first = process_user_auth e s credential_username_password initial in
      let (t, info, st) = again_after_noop first credential_username_password in
      (t, record { user_auth_info = info; canary = ok_special; status = st })

  -- The failure response that ends the attempts. An OK_SPECIAL that is left fails an ENSURES.
  unfoldable pub last_failure : AuthSession → Status → AuthSession × Status
  last_failure s st = ((send_response_failure e s false).0, if is_special st then internal else st)

  -- Success, or what follows on a failed attempt. A status that is no error fails an ENSURES.
  unfoldable pub settled :
      AuthSession → FailsafeAuthInfo → AuthSession × Status → AuthSession × Status
  settled s info failing =
      if matches_template info
      then send_response_success e s
      else if not (is_error info.status)
      then (s, internal)
      else failing

  -- `left` is the number of attempts that may follow this one, 2 less authAttempts.
  unfoldable pub fixed_attempts : (left : ℕ) → Bool → AuthSession → AuthSession × Status
  unfolding settled last_failure
  fixed_attempts zero initial s =
      let (t, info) = attempt s initial in settled t info (last_failure t info.status)
  fixed_attempts (suc left) initial s =
      let (t, info) = attempt s initial in
      let answered = send_response_failure e t true in
      let rest = fixed_attempts left false answered.0 in
      settled t info (
        if not (is_wrong_key info.status)
        then last_failure t info.status
        else if is_error answered.1
        then answered
        else rest)

  unfoldable pub process_fixed_auth : AuthSession → AuthSession × Status
  process_fixed_auth = fixed_attempts 2 true

  -- The credentials are left to the caller. A status that is no error fails an ENSURES.
  unfoldable pub finish_pass : Verdict → AuthSession × Status
  finish_pass (s, info, st) =
      let t = record s { auth_read = true } in
      if not (is_error st)
      then (t, internal)
      else (t, if is_special st then envelope_resource else st)

  -- The first pass tries again after a dummy read, and once more for a public key.
  unfoldable pub first_pass : AuthSession → Verdict
  first_pass s =
      let first = process_user_auth e s credential_none true in
      again_after_noop (again_after_noop first credential_username) credential_username

  -- On a later pass a dummy read fails an ENSURES.
  unfoldable pub later_pass : AuthSession → AuthSession × Status
  unfolding finish_pass
  later_pass s =
      let (t, info, st) = process_user_auth e s credential_username false in
      if is_special st && is_noop info then (t, internal) else finish_pass (t, info, st)

  -- The answer of the caller to the credentials of the pass before.
  unfoldable pub answered_pass : AuthSession → AuthSession × Status
  unfolding later_pass
  answered_pass s =
      let (t, st) = send_response_failure e s true in
      if accepted s.auth_response
      then send_response_success e s
      else if is_error st
      then (t, st)
      else later_pass (record t { auth_response = authresponse_none })

  unfoldable pub process_server_auth : AuthSession → Bool → AuthSession × Status
  unfolding answered_pass first_pass finish_pass
  process_server_auth s user_info_present =
      if user_info_present
      then process_fixed_auth s
      else if s.auth_read
      then answered_pass s
      else finish_pass (first_pass s)
