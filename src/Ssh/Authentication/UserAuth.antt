-- ===== src/Ssh/Authentication/UserAuth.antt =====
-- processUserAuth of ssh2_auths.c.
use bosh_dotnet.Prelude.{
  ℕ, suc, not, ◌||◌, Bool, true, false, List, [], ◌==◌, Option, none, some, length, get_elem?,
  if◌then◌else◌,
}
use bosh_dotnet.Ssh.Status.{
  Status, ok, ok_special, internal, bad_data, duplicate, invalid, wrong_key, is_error, is_special,
}
use bosh_dotnet.Ssh.Authentication.State.{
  AuthSession, AuthEnvironment, AuthAttribute, SessionInfo, user_name, password, MethodType,
  method_query, method_password, method_publickey, CredentialType, credential_none,
  credential_username_password, UserAuthType, userauth_success, userauth_callercheck, userauth_noop,
}
use bosh_dotnet.Ssh.Authentication.Responses.{send_response_failure, check_credentials_consistent}
use bosh_dotnet.Ssh.Authentication.Request.{
  Result, stop, done, UserAuthRequest, empty_password, read_request, read_password,
}
use bosh_dotnet.Ssh.Authentication.Publickey.{Verdict, rejected, do_publickey_auth}

-- ID_SIZE and the least lengths of the three strings.
abbrev pub min_request_length : ℕ
min_request_length = 26

abbrev pub is_duplicate : Status → Bool
is_duplicate duplicate = true
is_duplicate _ = false

abbrev pub is_noop : UserAuthType → Bool
is_noop userauth_noop = true
is_noop _ = false

abbrev pub is_success : UserAuthType → Bool
is_success userauth_success = true
is_success _ = false

abbrev pub is_callercheck : UserAuthType → Bool
is_callercheck userauth_callercheck = true
is_callercheck _ = false

abbrev pub is_password : SessionInfo → Bool
is_password password = true
is_password _ = false

-- The attribute behind a position.
abbrev pub next_attribute : List AuthAttribute → Option ℕ → Option AuthAttribute
next_attribute l none = none
next_attribute l (some i) = get_elem? l (suc i)

module _ (e : AuthEnvironment) where
  -- The password that belongs to the selected user name must be the client's. An attribute list
  -- without one fails an ENSURES.
  unfoldable pub match_with : AuthSession → Option AuthAttribute → List ℕ → Verdict
  match_with s none given = rejected s internal
  match_with s (some a) given =
      if not (is_password a.attribute_id)
      then rejected s internal
      else if not (length given == length a.value) || not (e.compare_data_const_time given a.value)
      then rejected s wrong_key
      else (s, userauth_success, ok)

  unfoldable pub match_password : AuthSession → Option ℕ → List ℕ → Verdict
  unfolding match_with
  match_password s position given = match_with s (next_attribute s.attributes position) given

  -- With no password to match, the client's is recorded for the caller.
  unfoldable pub record_password : AuthSession → List ℕ → Verdict
  record_password s given =
      let (st, updated) = e.update_session_info s.attributes password given in
      let t = record s { attributes = updated } in
      if is_error st then rejected t st else (t, userauth_callercheck, ok_special)

  unfoldable pub check_password : AuthSession → CredentialType → Option ℕ → List ℕ → Verdict
  unfolding record_password
  check_password s credential_username_password position given = match_password s position given
  check_password s _ position given = record_password s given

  -- The user name: recorded if the caller gave none, else found and selected. The last part is the
  -- position of the name that was found.
  unfoldable pub add_user : AuthSession → List ℕ → AuthSession × Status × Option ℕ
  add_user s name =
      let (st, added) = e.add_session_info_s s.attributes user_name name in
      (record s { attributes = added }, st, none)

  unfoldable pub select_user : AuthSession → Option ℕ → AuthSession × Status × Option ℕ
  select_user s none = ((send_response_failure e s false).0, wrong_key, none)
  select_user s (some i) = (record s { attribute_list_current = some i }, ok, some i)

  unfoldable pub resolve_user :
      AuthSession → CredentialType → List ℕ → AuthSession × Status × Option ℕ
  unfolding add_user select_user
  resolve_user s credential_none name = add_user s name
  resolve_user s _ name = select_user s (e.find_session_info_ex s.attributes user_name name)

  unfoldable pub answer_query : AuthSession → Verdict
  answer_query s =
      let (t, st) = send_response_failure e s true in
      if is_error st then rejected t st else (t, userauth_noop, ok_special)

  -- A signed request goes on with KE_EMPTY_PASSWORD as its password.
  unfoldable pub behind_publickey : Verdict → CredentialType → Option ℕ → Verdict
  behind_publickey (s, info, st) credential position =
      if not (is_special st)
      then (s, info, st)
      else if not (is_callercheck info)
      then (s, info, ok_special)
      else check_password s credential position empty_password

  unfoldable pub with_method :
      AuthSession
      → List ℕ
      → UserAuthRequest
      → List ℕ
      → CredentialType
      → Option ℕ
      → MethodType
      → Verdict
  unfolding answer_query
  with_method s packet request given credential position method_publickey =
      behind_publickey (do_publickey_auth e s packet request) credential position
  with_method s packet request given credential position method_query = answer_query s
  with_method s packet request given credential position _ =
      check_password s credential position given

  unfoldable pub with_user :
      AuthSession → List ℕ → UserAuthRequest → List ℕ → CredentialType → Verdict
  with_user s packet request given credential =
      let (t, st, position) = resolve_user s credential request.name in
      if is_error st
      then rejected t st
      else with_method t packet request given credential position request.method

  unfoldable pub with_given :
      AuthSession → List ℕ → UserAuthRequest → Result (List ℕ) → CredentialType → Verdict
  with_given s packet request (stop st) credential = rejected s st
  with_given s packet request (done given) credential = with_user s packet request given credential

  -- The password is read, and the recorded key forgotten, for method "password" only.
  unfoldable pub with_payload :
      AuthSession → List ℕ → UserAuthRequest → CredentialType → MethodType → Verdict
  unfolding with_given
  with_payload s packet request credential method_password =
      with_given (record s { publickey = none }) packet request (read_password e request) credential
  with_payload s packet request credential _ = with_user s packet request [] credential

  unfoldable pub with_request :
      AuthSession → List ℕ → UserAuthRequest → CredentialType → Bool → Verdict
  with_request s packet request credential initial =
      let (t, st) = check_credentials_consistent e s request.name request.method initial in
      if is_error st
      then rejected t (if is_duplicate st then bad_data else invalid)
      else with_payload t packet request credential request.method

  unfoldable pub with_read :
      AuthSession → List ℕ → Result UserAuthRequest → CredentialType → Bool → Verdict
  unfolding with_request
  with_read s packet (stop st) credential initial = rejected s st
  with_read s packet (done request) credential initial =
      with_request s packet request credential initial

  unfoldable pub process_user_auth : AuthSession → CredentialType → Bool → Verdict
  process_user_auth s credential initial =
      let (st, packet) = e.read_hs_packet_ssh2 s.packets_read min_request_length in
      let t = record s { packets_read = suc s.packets_read } in
      if is_error st
      then rejected t st
      else with_read t packet (read_request e packet) credential initial
