-- ===== src/Ssh/Authentication/Grants.antt =====
-- What a packet must hold for processUserAuth to report success against the caller's credentials.
pub mod Request
pub mod Packet
use bosh_dotnet.Prelude.{
  ℕ, suc, ◌≡◌, refl, sym, ap, subst, ◌⊎◌, inl, inr, Bool, true, false, not, ◌||◌, List, [], Option,
  none, some, length, get_elem?, ◌==◌, if◌then◌else◌, Bool-cases, Option-cases, ◌≢◌, arith,
}
use bosh_dotnet.Ssh.Status.{Status, is_error, is_special, internal, wrong_key, ok}
use bosh_dotnet.Ssh.Session.{max_text_size}
use bosh_dotnet.Ssh.Authentication.State.{
  AuthSession, AuthEnvironment, AuthDocumented, AuthAttribute, SessionInfo, user_name, password,
  other_info, MethodType, method_none, method_query, method_password, method_publickey,
  credential_username_password,
}
use bosh_dotnet.Ssh.Authentication.Responses.{send_response_failure, check_credentials_consistent}
use bosh_dotnet.Ssh.Authentication.Request.{
  Result, Result-cases, stop, done, UserAuthRequest, empty_password, read_request, read_password,
  method_of, known_method, >>=-done, ◌>>=◌, read_method, read_text, read_service,
}
use bosh_dotnet.Ssh.Authentication.Publickey.{
  Verdict, rejected, send_pk_ok, answer_read, answer_probe, record_publickey, record_verified,
  verify_request, accept_signed, is_probe, do_publickey_auth,
}
use bosh_dotnet.Ssh.Authentication.UserAuth.{
  is_password, is_success, is_callercheck, match_with, match_password, check_password,
  behind_publickey, next_attribute, answer_query, with_method, with_user, resolve_user, select_user,
  with_given, with_payload, with_request, with_read, process_user_auth, min_request_length,
}
use bosh_dotnet.Ssh.Authentication.Keeps.{
  successes, SameLog, SameLog-refl, SameLog-trans, Keeps, Keeps-refl, do_publickey_auth-Keeps,
  send_response_failure-Keeps, check_credentials_consistent-SameLog,
}

-- The password that a request stands for: the one it holds, or KE_EMPTY_PASSWORD for a request
-- signed with a key whose signature checks.
abbrev pub Submits :
    AuthEnvironment → (packet : List ℕ) → UserAuthRequest → (given : List ℕ) → Type 0
Submits e packet request given =
    ((request.method ≡ method_password) × (read_password e request ≡ done given))
    ⊎ ((request.method ≡ method_publickey)
        × (given ≡ empty_password)
        × (key : List ℕ) × (verify_request e packet request ≡ done key))

-- The packet is a request for a user of the attribute list, with the password behind the name.
pub record Grants (e : AuthEnvironment) (l : List AuthAttribute) (packet : List ℕ) : Type 0 where
  pub request : UserAuthRequest
  pub given : List ℕ
  pub position : ℕ
  pub reads : read_request e packet ≡ done request
  pub submits : Submits e packet request given
  pub named :
      get_elem? l position ≡ some (record { attribute_id = user_name; value = request.name })
  pub stored : get_elem? l (suc position) ≡ some (record { attribute_id = password; value = given })

is_password_eq : (id : SessionInfo) → is_password id ≡ true → id ≡ password
is_password_eq user_name h = cc
is_password_eq password h = refl
is_password_eq (other_info n) h = cc

module _ (e : AuthEnvironment) (doc : AuthDocumented e) where
  -- Nothing is lost, and success needs the stored password.
  abbrev pub Matched : AuthSession → Option AuthAttribute → List ℕ → Verdict → Type 0
  Matched s o given v =
      SameLog s v.0
      × ((is_success v.1 ≡ false) ⊎ (o ≡ some (record { attribute_id = password; value = given })))

  stored_password :
      (a : AuthAttribute) (given : List ℕ)
      → is_password a.attribute_id ≡ true
      → e.compare_data_const_time given a.value ≡ true
      → ◌≡◌ {A = Option AuthAttribute}
          (some a)
          (some (record { attribute_id = password; value = given }))
  stored_password a given p c =
      rw (doc.compares given a.value c, ← is_password_eq a.attribute_id p) refl

  pub match_with-Matched :
      (s : AuthSession) (o : Option AuthAttribute) (given : List ℕ)
      → Matched s o given (match_with e s o given)
  unfolding match_with
  match_with-Matched s none given = (SameLog-refl s, inl refl)
  match_with-Matched s (some a) given = elim (Bool-cases (is_password a.attribute_id)) [
    | inr n ↦ rw n (SameLog-refl s, inl refl)
    | inl p ↦ elim (Bool-cases (e.compare_data_const_time given a.value)) [
      | inr n ↦ elim (Bool-cases (length given == length a.value)) [
        | inl l ↦ rw (p, l, n) (SameLog-refl s, inl refl)
        | inr l ↦ rw (p, l) (SameLog-refl s, inl refl)
      ]
      | inl c ↦ elim (Bool-cases (length given == length a.value)) [
        | inl l ↦ rw (p, l, c) (SameLog-refl s, inr (stored_password a given p c))
        | inr l ↦ rw (p, l) (SameLog-refl s, inl refl)
      ]
    ]
  ]
