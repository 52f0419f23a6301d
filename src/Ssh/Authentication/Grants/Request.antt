-- ===== src/Ssh/Authentication/Grants/Request.antt =====
-- processUserAuth on a request that was read, against the caller's credentials.
use bosh_dotnet.Prelude.{
  ℕ, ◌≡◌, refl, subst, ◌⊎◌, inl, inr, Bool, true, false, List, [], none, some, get_elem?,
  Bool-cases, Option-cases, ◌≢◌,
}
use bosh_dotnet.Ssh.Status.{is_error, is_special}
use bosh_dotnet.Ssh.Authentication.State.{
  AuthSession, AuthEnvironment, AuthDocumented, user_name, MethodType, method_none, method_query,
  method_password, method_publickey, credential_username_password,
}
use bosh_dotnet.Ssh.Authentication.Responses.{send_response_failure, check_credentials_consistent}
use bosh_dotnet.Ssh.Authentication.Request.{
  Result, stop, done, UserAuthRequest, empty_password, read_request, read_password,
}
use bosh_dotnet.Ssh.Authentication.Publickey.{Verdict, do_publickey_auth}
use bosh_dotnet.Ssh.Authentication.UserAuth.{
  is_success, is_callercheck, match_password, check_password, behind_publickey, next_attribute,
  answer_query, with_method, with_user, resolve_user, select_user, with_given, with_payload,
  with_request,
}
use bosh_dotnet.Ssh.Authentication.Keeps.{
  SameLog, SameLog-refl, SameLog-trans, do_publickey_auth-Keeps, send_response_failure-Keeps,
  check_credentials_consistent-SameLog,
}
use bosh_dotnet.Ssh.Authentication.Grants.{Submits, Grants, match_with-Matched}
use bosh_dotnet.Ssh.Authentication.Publickey.Reports.{
  do_publickey_auth_key, do_publickey_auth_quiet,
}

module _ (e : AuthEnvironment) (doc : AuthDocumented e) (packet : List ℕ)
    (request : UserAuthRequest) (reads : read_request e packet ≡ done request) where
  -- Nothing is lost, and success needs a grant.
  abbrev pub Guarded : AuthSession → Verdict → Type 0
  Guarded s v = SameLog s v.0 × ((is_success v.1 ≡ false) ⊎ Grants e s.attributes packet)

  Guarded-after : (s t : AuthSession) (v : Verdict) → SameLog s t → Guarded t v → Guarded s v
  Guarded-after s t v kept (log, outcome) = (
    SameLog-trans kept log,
    elim outcome [ inl n ↦ inl n | inr g ↦ inr (subst (λ l. Grants e l packet) kept.attributes g) ],
  )

  answer_query-Guarded : (s : AuthSession) → Guarded s (answer_query e s)
  unfolding answer_query
  answer_query-Guarded s = elim (Bool-cases (is_error (send_response_failure e s true).1)) [
    | inl t ↦ rw t ((send_response_failure-Keeps e s true).log, inl refl)
    | inr t ↦ rw t ((send_response_failure-Keeps e s true).log, inl refl)
  ]

  check_password-Guarded :
      (s : AuthSession) (i : ℕ) (given : List ℕ)
      → get_elem? s.attributes i ≡ some (record { attribute_id = user_name; value = request.name })
      → Submits e packet request given
      → Guarded s (check_password e s credential_username_password (some i) given)
  unfolding check_password match_password
  check_password-Guarded s i given named submits =
      let (log, outcome) =
        match_with-Matched e doc s (next_attribute s.attributes (some i)) given in
      (
        log,
        elim outcome [
          | inl n ↦ inl n
          | inr stored ↦ inr (record {
            request = request;
            given = given;
            position = i;
            reads = reads;
            submits = submits;
            named = named;
            stored = stored;
          })
        ],
      )

  behind_publickey-Guarded :
      (s : AuthSession) (i : ℕ)
      → get_elem? s.attributes i ≡ some (record { attribute_id = user_name; value = request.name })
      → request.method ≡ method_publickey
      → Guarded s (
          behind_publickey e
            (do_publickey_auth e s packet request)
            credential_username_password
            (some i))
  unfolding behind_publickey
  behind_publickey-Guarded s i named m =
      let v = do_publickey_auth e s packet request in
      let kept : SameLog s v.0 = (do_publickey_auth-Keeps e s packet request).log in
      let quiet : is_success v.1 ≡ false = do_publickey_auth_quiet e s packet request in
      elim (Bool-cases (is_special v.2)) [
        | inr n ↦ rw n (kept, inl quiet)
        | inl t ↦ elim (Bool-cases (is_callercheck v.1)) [
          | inr n ↦ rw (t, n) (kept, inl quiet)
          | inl c ↦
              let (key, verified) = do_publickey_auth_key e s packet request c in
              rw (t, c)
                (Guarded-after s v.0
                  (check_password e v.0 credential_username_password (some i) empty_password) kept
                  (check_password-Guarded v.0 i empty_password (rw (kept.attributes) named)
                    (inr (m, refl, key, verified))))
        ]
      ]

  with_method-Guarded :
      (s : AuthSession) (i : ℕ) (given : List ℕ) (m : MethodType)
      → get_elem? s.attributes i ≡ some (record { attribute_id = user_name; value = request.name })
      → request.method ≡ m
      → (m ≡ method_password → read_password e request ≡ done given)
      → (known : method_none ≢ m)
      → Guarded s (with_method e s packet request given credential_username_password (some i) m)
  unfolding with_method
  with_method-Guarded s i given method_none named q p known = absurd (known refl)
  with_method-Guarded s i given method_query named q p known = answer_query-Guarded s
  with_method-Guarded s i given method_password named q p known =
      check_password-Guarded s i given named (inl (q, p refl))
  with_method-Guarded s i given method_publickey named q p known =
      behind_publickey-Guarded s i named q

  with_user-Guarded :
      (s : AuthSession) (given : List ℕ)
      → (request.method ≡ method_password → read_password e request ≡ done given)
      → (known : method_none ≢ request.method)
      → Guarded s (with_user e s packet request given credential_username_password)
  unfolding with_user resolve_user select_user
  with_user-Guarded s given p known =
      elim (Option-cases (e.find_session_info_ex s.attributes user_name request.name)) [
        | inl n ↦ rw n ((send_response_failure-Keeps e s false).log, inl refl)
        | inr (i, found) ↦ rw found (
            Guarded-after s (record s { attribute_list_current = some i })
              (with_method e (record s { attribute_list_current = some i }) packet request given
                credential_username_password (some i) request.method)
              (record {
                attributes = refl;
                auth_read = refl;
                packets_read = refl;
                successes = refl;
              })
              (with_method-Guarded (record s { attribute_list_current = some i }) i given
                request.method (doc.finds s.attributes user_name request.name i found) refl p
                known))
      ]

  with_given-Guarded :
      (s : AuthSession) (r : Result (List ℕ))
      → read_password e request ≡ r
      → (known : method_none ≢ request.method)
      → Guarded s (with_given e s packet request r credential_username_password)
  unfolding with_given
  with_given-Guarded s (stop st) q known = (SameLog-refl s, inl refl)
  with_given-Guarded s (done given) q known = with_user-Guarded s given (λ _. q) known

  with_payload-Guarded :
      (s : AuthSession) (m : MethodType)
      → request.method ≡ m
      → (known : method_none ≢ m)
      → Guarded s (with_payload e s packet request credential_username_password m)
  unfolding with_payload
  with_payload-Guarded s method_none q known = absurd (known refl)
  with_payload-Guarded s method_query q known = with_user-Guarded s [] (λ p. cc) (rw q known)
  with_payload-Guarded s method_publickey q known = with_user-Guarded s [] (λ p. cc) (rw q known)
  with_payload-Guarded s method_password q known =
      Guarded-after s (record s { publickey = none })
        (with_given e (record s { publickey = none }) packet request (read_password e request)
          credential_username_password)
        (record { attributes = refl; auth_read = refl; packets_read = refl; successes = refl })
        (with_given-Guarded (record s { publickey = none }) (read_password e request) refl
          (rw q known))

  pub with_request-Guarded :
      (s : AuthSession) (initial : Bool)
      → (known : method_none ≢ request.method)
      → Guarded s (with_request e s packet request credential_username_password initial)
  unfolding with_request
  with_request-Guarded s initial known =
      let checked = check_credentials_consistent e s request.name request.method initial in
      let kept = check_credentials_consistent-SameLog e s request.name request.method initial in
      elim (Bool-cases (is_error checked.1)) [
        | inl t ↦ rw t (kept, inl refl)
        | inr t ↦ rw t (
            Guarded-after s checked.0
              (with_payload e checked.0 packet request credential_username_password request.method)
              kept (with_payload-Guarded checked.0 request.method refl known))
      ]
