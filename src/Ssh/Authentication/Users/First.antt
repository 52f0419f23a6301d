-- ===== src/Ssh/Authentication/Users/First.antt =====
-- The first attempt of processUserAuth records the user name whose hash it keeps.
use bosh_dotnet.Prelude.{
  ℕ, suc, ◌≡◌, refl, ap, ◌∙◌, ◌⊎◌, inl, inr, true, List, [], ◌∷◌, ◌++◌, none, Bool-cases,
}
use bosh_dotnet.Ssh.Status.{is_error}
use bosh_dotnet.Ssh.Authentication.State.{
  AuthSession, AuthEnvironment, AuthDocumented, user_name, user_names, MethodType, method_none,
  method_query, method_password, method_publickey, credential_none,
}
use bosh_dotnet.Ssh.Authentication.Responses.{check_credentials_consistent}
use bosh_dotnet.Ssh.Authentication.Request.{
  Result, stop, done, UserAuthRequest, read_request, read_password,
}
use bosh_dotnet.Ssh.Authentication.UserAuth.{
  with_method, with_user, resolve_user, add_user, with_given, with_payload, with_request, with_read,
  process_user_auth, min_request_length,
}
use bosh_dotnet.Ssh.Authentication.Keeps.{successes}
use bosh_dotnet.Ssh.Authentication.Users.{
  KeepsUsers, with_method-KeepsUsers, error_ne_ok, ok_of_no_error,
}

-- The first attempt records at most the name that its hash is taken of.
pub record Records (e : AuthEnvironment) (s t : AuthSession) : Type 0 where
  pub auth_read : t.auth_read ≡ s.auth_read
  pub successes : successes t.sent ≡ successes s.sent
  pub users :
      (user_names t.attributes ≡ user_names s.attributes)
      ⊎ ((name : List ℕ) × (user_names t.attributes ≡ user_names s.attributes ++ name ∷ [])
          × (t.auth_user_name_hash ≡ e.sha1 name))

pub Records-KeepsUsers :
    (e : AuthEnvironment) (s t u : AuthSession) → Records e s t → KeepsUsers t u → Records e s u
Records-KeepsUsers e s t u r k = record {
  auth_read = k.auth_read ∙ r.auth_read;
  successes = k.successes ∙ r.successes;
  users = elim r.users [
    | inl same ↦ inl (k.users ∙ same)
    | inr (name, added, hash) ↦ inr (name, k.users ∙ added, k.auth_user_name_hash ∙ hash)
  ];
}

-- A step before that changes none of these.
Records-from :
    (e : AuthEnvironment) (s t u : AuthSession)
    → user_names t.attributes ≡ user_names s.attributes
    → t.auth_read ≡ s.auth_read
    → successes t.sent ≡ successes s.sent
    → Records e t u
    → Records e s u
Records-from e s t u users a b r = record {
  auth_read = r.auth_read ∙ a;
  successes = r.successes ∙ b;
  users = elim r.users [
    | inl same ↦ inl (same ∙ users)
    | inr (name, added, hash) ↦ inr (name, added ∙ ap (λ l. l ++ name ∷ []) users, hash)
  ];
}

module _ (e : AuthEnvironment) (doc : AuthDocumented e) (packet : List ℕ)
    (request : UserAuthRequest) where
  first_user-Records :
      (s : AuthSession) (given : List ℕ)
      → s.auth_user_name_hash ≡ e.sha1 request.name
      → Records e s (with_user e s packet request given credential_none).0
  unfolding with_user resolve_user add_user
  first_user-Records s given hash =
      let (st, added) = e.add_session_info_s s.attributes user_name request.name in
      let t = record s { attributes = added } in
      elim (Bool-cases (is_error st)) [
        | inl b ↦ rw b (record {
          auth_read = refl;
          successes = refl;
          users =
              inl (ap user_names (doc.refuses_user s.attributes request.name (error_ne_ok st b)));
        })
        | inr b ↦ rw b (
            Records-KeepsUsers e s t
              (with_method e t packet request given credential_none none request.method).0
              (record {
                auth_read = refl;
                successes = refl;
                users = inr (
                  request.name,
                  doc.adds_user s.attributes request.name (ok_of_no_error st b),
                  hash,
                );
              })
              (with_method-KeepsUsers e doc packet request t given credential_none none
                request.method))
      ]

  first_given-Records :
      (s : AuthSession) (r : Result (List ℕ))
      → s.auth_user_name_hash ≡ e.sha1 request.name
      → Records e s (with_given e s packet request r credential_none).0
  unfolding with_given
  first_given-Records s (stop st) hash = record {
    auth_read = refl;
    successes = refl;
    users = inl refl;
  }
  first_given-Records s (done given) hash = first_user-Records s given hash

  first_payload-Records :
      (s : AuthSession) (m : MethodType)
      → s.auth_user_name_hash ≡ e.sha1 request.name
      → Records e s (with_payload e s packet request credential_none m).0
  unfolding with_payload
  first_payload-Records s method_none hash = first_user-Records s [] hash
  first_payload-Records s method_query hash = first_user-Records s [] hash
  first_payload-Records s method_publickey hash = first_user-Records s [] hash
  first_payload-Records s method_password hash =
      let t = record s { publickey = none } in
      Records-from e s t _ refl refl refl (first_given-Records t (read_password e request) hash)

  first_request-Records :
      (s : AuthSession) → Records e s (with_request e s packet request credential_none true).0
  unfolding with_request check_credentials_consistent
  first_request-Records s =
      let t = record s { auth_user_name_hash = e.sha1 request.name; auth_type = request.method } in
      Records-from e s t (with_payload e t packet request credential_none request.method).0 refl
        refl refl (first_payload-Records t request.method refl)

module _ (e : AuthEnvironment) (doc : AuthDocumented e) where
  first_read-Records :
      (s : AuthSession) (packet : List ℕ) (r : Result UserAuthRequest)
      → Records e s (with_read e s packet r credential_none true).0
  unfolding with_read
  first_read-Records s packet (stop st) = record {
    auth_read = refl;
    successes = refl;
    users = inl refl;
  }
  first_read-Records s packet (done request) = first_request-Records e doc packet request s

  pub first_attempt-Records :
      (s : AuthSession) → Records e s (process_user_auth e s credential_none true).0
  unfolding process_user_auth
  first_attempt-Records s =
      let (st, packet) = e.read_hs_packet_ssh2 s.packets_read min_request_length in
      let t = record s { packets_read = suc s.packets_read } in
      elim (Bool-cases (is_error st)) [
        | inl b ↦ rw b (record { auth_read = refl; successes = refl; users = inl refl })
        | inr b ↦ rw b (
            Records-from e s t (with_read e t packet (read_request e packet) credential_none true).0
              refl refl refl (first_read-Records t packet (read_request e packet)))
      ]
