-- ===== src/Ssh/Authentication/Users.antt =====
-- The user names that processUserAuth records: none on a later attempt, the client's on the first.
pub mod First
use bosh_dotnet.Prelude.{
  ℕ, suc, ◌≡◌, ◌≢◌, refl, ap, ◌∙◌, ◌⊎◌, inl, inr, Bool, true, false, not, ◌||◌, List, [], ◌∷◌, ◌++◌,
  Option, none, some, length, ◌==◌, if◌then◌else◌, Bool-cases, Option-cases, arith,
}
use bosh_dotnet.Ssh.Status.{Status, ok, is_error, is_special}
use bosh_dotnet.Ssh.Authentication.State.{
  AuthSession, AuthEnvironment, AuthDocumented, AuthAttribute, user_name, password, user_names,
  MethodType, method_none, method_query, method_password, method_publickey, CredentialType,
  credential_none, credential_username, credential_username_password,
}
use bosh_dotnet.Ssh.Authentication.Responses.{send_response_failure, check_credentials_consistent}
use bosh_dotnet.Ssh.Authentication.Request.{
  Result, stop, done, UserAuthRequest, empty_password, read_request, read_password,
}
use bosh_dotnet.Ssh.Authentication.Publickey.{Verdict, do_publickey_auth}
use bosh_dotnet.Ssh.Authentication.UserAuth.{
  is_password, is_callercheck, match_with, match_password, record_password, check_password,
  behind_publickey, answer_query, with_method, with_user, resolve_user, add_user, select_user,
  with_given, with_payload, with_request, with_read, process_user_auth, min_request_length,
}
use bosh_dotnet.Ssh.Authentication.Keeps.{
  successes, Keeps, do_publickey_auth-Keeps, send_response_failure-Keeps,
  check_credentials_consistent-SameLog,
}

pub record KeepsUsers (s t : AuthSession) : Type 0 where
  pub users : user_names t.attributes ≡ user_names s.attributes
  pub auth_user_name_hash : t.auth_user_name_hash ≡ s.auth_user_name_hash
  pub auth_read : t.auth_read ≡ s.auth_read
  pub successes : successes t.sent ≡ successes s.sent

pub KeepsUsers-trans : {s t u : AuthSession} → KeepsUsers s t → KeepsUsers t u → KeepsUsers s u
KeepsUsers-trans p q = record {
  users = q.users ∙ p.users;
  auth_user_name_hash = q.auth_user_name_hash ∙ p.auth_user_name_hash;
  auth_read = q.auth_read ∙ p.auth_read;
  successes = q.successes ∙ p.successes;
}

pub KeepsUsers-refl : (s : AuthSession) → KeepsUsers s s
KeepsUsers-refl s = record {
  users = refl;
  auth_user_name_hash = refl;
  auth_read = refl;
  successes = refl;
}

pub Keeps-KeepsUsers : {s t : AuthSession} → Keeps s t → KeepsUsers s t
Keeps-KeepsUsers k = record {
  users = ap user_names k.log.attributes;
  auth_user_name_hash = k.auth_user_name_hash;
  auth_read = k.log.auth_read;
  successes = k.log.successes;
}

-- The hash is written on the first attempt only.
later_hash :
    (e : AuthEnvironment) (s : AuthSession) (name : List ℕ) (m : MethodType)
    → (check_credentials_consistent e s name m false).0.auth_user_name_hash ≡ s.auth_user_name_hash
unfolding check_credentials_consistent
later_hash e s name m = ground arith

pub error_ne_ok : (st : Status) → is_error st ≡ true → st ≢ ok
error_ne_ok st h q = absurd (ground (arith, q))

pub ok_of_no_error : (st : Status) → is_error st ≡ false → st ≡ ok
ok_of_no_error st h = ground arith

module _ (e : AuthEnvironment) (doc : AuthDocumented e) where
  match_with_state :
      (s : AuthSession) (o : Option AuthAttribute) (given : List ℕ) → (match_with e s o given).0 ≡ s
  unfolding match_with
  match_with_state s none given = refl
  match_with_state s (some a) given = ground arith

  record_password-KeepsUsers :
      (s : AuthSession) (given : List ℕ) → KeepsUsers s (record_password e s given).0
  unfolding record_password
  record_password-KeepsUsers s given =
      elim (Bool-cases (is_error (e.update_session_info s.attributes password given).0)) [
        | inl t ↦ rw t kept
        | inr t ↦ rw t kept
      ]
    where
      kept :
          KeepsUsers s
            (record s { attributes = (e.update_session_info s.attributes password given).1 })
      kept = record {
        users = doc.updates_password s.attributes given;
        auth_user_name_hash = refl;
        auth_read = refl;
        successes = refl;
      }

  check_password-KeepsUsers :
      (s : AuthSession) (credential : CredentialType) (position : Option ℕ) (given : List ℕ)
      → KeepsUsers s (check_password e s credential position given).0
  unfolding check_password match_password
  check_password-KeepsUsers s credential_none position given = record_password-KeepsUsers s given
  check_password-KeepsUsers s credential_username position given =
      record_password-KeepsUsers s given
  check_password-KeepsUsers s credential_username_password position given =
      rw (match_with_state s _ given) (KeepsUsers-refl s)

  behind_publickey-KeepsUsers :
      (v : Verdict) (credential : CredentialType) (position : Option ℕ)
      → KeepsUsers v.0 (behind_publickey e v credential position).0
  unfolding behind_publickey
  behind_publickey-KeepsUsers v credential position = elim (Bool-cases (is_special v.2)) [
    | inr n ↦ rw n (KeepsUsers-refl v.0)
    | inl t ↦ elim (Bool-cases (is_callercheck v.1)) [
      | inr n ↦ rw (t, n) (KeepsUsers-refl v.0)
      | inl c ↦ rw (t, c) (check_password-KeepsUsers v.0 credential position empty_password)
    ]
  ]

  answer_query-KeepsUsers : (s : AuthSession) → KeepsUsers s (answer_query e s).0
  unfolding answer_query
  answer_query-KeepsUsers s =
      let kept = Keeps-KeepsUsers (send_response_failure-Keeps e s true) in
      elim (Bool-cases (is_error (send_response_failure e s true).1)) [
        | inl t ↦ rw t kept
        | inr t ↦ rw t kept
      ]

  module _ (packet : List ℕ) (request : UserAuthRequest) where
    pub with_method-KeepsUsers :
        (s : AuthSession) (given : List ℕ) (credential : CredentialType) (position : Option ℕ)
        (m : MethodType)
        → KeepsUsers s (with_method e s packet request given credential position m).0
    unfolding with_method
    with_method-KeepsUsers s given credential position method_none =
        check_password-KeepsUsers s credential position given
    with_method-KeepsUsers s given credential position method_password =
        check_password-KeepsUsers s credential position given
    with_method-KeepsUsers s given credential position method_query = answer_query-KeepsUsers s
    with_method-KeepsUsers s given credential position method_publickey =
        KeepsUsers-trans (Keeps-KeepsUsers (do_publickey_auth-Keeps e s packet request))
          (behind_publickey-KeepsUsers (do_publickey_auth e s packet request) credential position)

    -- A later attempt, for the user that is recorded.
    with_user-KeepsUsers :
        (s : AuthSession) (given : List ℕ)
        → KeepsUsers s (with_user e s packet request given credential_username).0
    unfolding with_user resolve_user select_user
    with_user-KeepsUsers s given =
        elim (Option-cases (e.find_session_info_ex s.attributes user_name request.name)) [
          | inl n ↦ rw n (Keeps-KeepsUsers (send_response_failure-Keeps e s false))
          | inr (i, found) ↦
              let t = record s { attribute_list_current = some i } in
              rw found (
                KeepsUsers-trans {t = t}
                  (record {
                    users = refl;
                    auth_user_name_hash = refl;
                    auth_read = refl;
                    successes = refl;
                  })
                  (with_method-KeepsUsers t given credential_username (some i) request.method))
        ]

    with_given-KeepsUsers :
        (s : AuthSession) (r : Result (List ℕ))
        → KeepsUsers s (with_given e s packet request r credential_username).0
    unfolding with_given
    with_given-KeepsUsers s (stop st) = KeepsUsers-refl s
    with_given-KeepsUsers s (done given) = with_user-KeepsUsers s given

    with_payload-KeepsUsers :
        (s : AuthSession) (m : MethodType)
        → KeepsUsers s (with_payload e s packet request credential_username m).0
    unfolding with_payload
    with_payload-KeepsUsers s method_none = with_user-KeepsUsers s []
    with_payload-KeepsUsers s method_query = with_user-KeepsUsers s []
    with_payload-KeepsUsers s method_publickey = with_user-KeepsUsers s []
    with_payload-KeepsUsers s method_password =
        let t = record s { publickey = none } in
        KeepsUsers-trans {t = t}
          (record { users = refl; auth_user_name_hash = refl; auth_read = refl; successes = refl })
          (with_given-KeepsUsers t (read_password e request))

    later_request-KeepsUsers :
        (s : AuthSession)
        → KeepsUsers s (with_request e s packet request credential_username false).0
    unfolding with_request
    later_request-KeepsUsers s =
        let checked = check_credentials_consistent e s request.name request.method false in
        let log = check_credentials_consistent-SameLog e s request.name request.method false in
        let kept : KeepsUsers s checked.0 = Keeps-KeepsUsers (record {
          log = log;
          auth_user_name_hash = later_hash e s request.name request.method;
        }) in
        elim (Bool-cases (is_error checked.1)) [
          | inl t ↦ rw t kept
          | inr t ↦ rw t (KeepsUsers-trans kept (with_payload-KeepsUsers checked.0 request.method))
        ]

  later_read-KeepsUsers :
      (s : AuthSession) (packet : List ℕ) (r : Result UserAuthRequest)
      → KeepsUsers s (with_read e s packet r credential_username false).0
  unfolding with_read
  later_read-KeepsUsers s packet (stop st) = KeepsUsers-refl s
  later_read-KeepsUsers s packet (done request) = later_request-KeepsUsers packet request s

  -- An attempt after the first one records no user name.
  pub later_attempt-KeepsUsers :
      (s : AuthSession) → KeepsUsers s (process_user_auth e s credential_username false).0
  unfolding process_user_auth
  later_attempt-KeepsUsers s =
      let (st, packet) = e.read_hs_packet_ssh2 s.packets_read min_request_length in
      let t = record s { packets_read = suc s.packets_read } in
      let kept : KeepsUsers s t = record {
        users = refl;
        auth_user_name_hash = refl;
        auth_read = refl;
        successes = refl;
      } in
      elim (Bool-cases (is_error st)) [
        | inl b ↦ rw b kept
        | inr b ↦
            rw b (KeepsUsers-trans kept (later_read-KeepsUsers t packet (read_request e packet)))
      ]
