-- ===== src/Ssh/Authentication/Publickey/Reports.antt =====
-- What doPublickeyAuth reports to processUserAuth.
use bosh_dotnet.Prelude.{ℕ, ◌≡◌, refl, subst, inl, inr, true, false, List, Bool-cases, arith}
use bosh_dotnet.Ssh.Authentication.State.{AuthSession, AuthEnvironment}
use bosh_dotnet.Ssh.Authentication.Request.{Result, stop, done, UserAuthRequest}
use bosh_dotnet.Ssh.Authentication.Publickey.{
  Verdict, send_pk_ok, answer_read, answer_probe, record_publickey, record_verified, verify_request,
  accept_signed, is_probe, do_publickey_auth,
}
use bosh_dotnet.Ssh.Authentication.UserAuth.{is_success, is_callercheck}

module _ (e : AuthEnvironment) where
  behind_publickey_key :
      (s : AuthSession) (verified : Result (List ℕ))
      → is_callercheck (record_verified e s verified).1 ≡ true
      → (key : List ℕ) × (verified ≡ done key)
  unfolding record_verified
  behind_publickey_key s (stop st) h = cc
  behind_publickey_key s (done key) h = (key, refl)

  not_callercheck :
      (s : AuthSession) (read : Result (List ℕ × List ℕ))
      → is_callercheck (answer_read e s read).1 ≡ false
  unfolding answer_read send_pk_ok
  not_callercheck s (stop st) = refl
  not_callercheck s (done (algorithm, blob)) = ground arith

  do_publickey_auth_signed :
      (s : AuthSession) (packet : List ℕ) (request : UserAuthRequest)
      → is_probe request.step ≡ false
      → do_publickey_auth e s packet request ≡ record_verified e s (verify_request e packet request)
  unfolding do_publickey_auth accept_signed
  do_publickey_auth_signed s packet request t = rw t refl

  -- Only a signature that checks is passed on to the caller.
  pub do_publickey_auth_key :
      (s : AuthSession) (packet : List ℕ) (request : UserAuthRequest)
      → is_callercheck (do_publickey_auth e s packet request).1 ≡ true
      → (key : List ℕ) × (verify_request e packet request ≡ done key)
  unfolding do_publickey_auth answer_probe accept_signed
  do_publickey_auth_key s packet request h = elim (Bool-cases (is_probe request.step)) [
    | inl t ↦
        let wrong : is_callercheck (do_publickey_auth e s packet request).1 ≡ false =
          rw t (not_callercheck s _) in
        cc
    | inr t ↦ behind_publickey_key s (verify_request e packet request) (
        subst (λ (v : Verdict). is_callercheck v.1 ≡ true)
          (do_publickey_auth_signed s packet request t) h)
  ]

  -- Success is never reported here.
  answer_read_quiet :
      (s : AuthSession) (read : Result (List ℕ × List ℕ))
      → is_success (answer_read e s read).1 ≡ false
  unfolding answer_read send_pk_ok
  answer_read_quiet s (stop st) = refl
  answer_read_quiet s (done (algorithm, blob)) = ground arith

  record_verified_quiet :
      (s : AuthSession) (verified : Result (List ℕ))
      → is_success (record_verified e s verified).1 ≡ false
  unfolding record_verified record_publickey
  record_verified_quiet s (stop st) = refl
  record_verified_quiet s (done key) = ground arith

  pub do_publickey_auth_quiet :
      (s : AuthSession) (packet : List ℕ) (request : UserAuthRequest)
      → is_success (do_publickey_auth e s packet request).1 ≡ false
  unfolding do_publickey_auth answer_probe accept_signed
  do_publickey_auth_quiet s packet request = elim (Bool-cases (is_probe request.step)) [
    | inl t ↦ rw t (answer_read_quiet s _)
    | inr t ↦ rw t (record_verified_quiet s _)
  ]
