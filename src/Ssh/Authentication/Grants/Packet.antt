-- ===== src/Ssh/Authentication/Grants/Packet.antt =====
-- processUserAuth on the next packet, against the caller's credentials.
use bosh_dotnet.Prelude.{
  ℕ, suc, ◌≡◌, refl, ◌⊎◌, inl, inr, Bool, false, List, some, Bool-cases, Option-cases, ◌≢◌, arith,
}
use bosh_dotnet.Ssh.Status.{is_error}
use bosh_dotnet.Ssh.Session.{max_text_size}
use bosh_dotnet.Ssh.Authentication.State.{
  AuthSession, AuthEnvironment, AuthDocumented, MethodType, method_none,
  credential_username_password,
}
use bosh_dotnet.Ssh.Authentication.Request.{
  Result, stop, done, UserAuthRequest, read_request, method_of, known_method, >>=-done, ◌>>=◌,
  read_method, read_text, read_service,
}
use bosh_dotnet.Ssh.Authentication.Publickey.{Verdict}
use bosh_dotnet.Ssh.Authentication.UserAuth.{
  is_success, with_read, process_user_auth, min_request_length,
}
use bosh_dotnet.Ssh.Authentication.Keeps.{successes}
use bosh_dotnet.Ssh.Authentication.Grants.{Grants}
use bosh_dotnet.Ssh.Authentication.Grants.Request.{with_request-Guarded}

-- Packet `n` of the client.
abbrev pub packet_read : AuthEnvironment → ℕ → List ℕ
packet_read e n = (e.read_hs_packet_ssh2 n min_request_length).1

-- One packet more is read, nothing else of the log changes, and success needs a grant.
pub record IsGuarded (e : AuthEnvironment) (s : AuthSession) (v : Verdict) : Type 0 where
  pub attributes : v.0.attributes ≡ s.attributes
  pub packets_read : v.0.packets_read ≡ suc s.packets_read
  pub successes : successes v.0.sent ≡ successes s.sent
  pub outcome : (is_success v.1 ≡ false) ⊎ Grants e s.attributes (packet_read e s.packets_read)

method_of_known : (name : List ℕ) (m : MethodType) → method_of name ≡ some m → method_none ≢ m
unfolding method_of
method_of_known name m h = ground arith

module _ (e : AuthEnvironment) where
  known_method_lem :
      (name : List ℕ) (m : MethodType) → known_method e name ≡ done m → method_none ≢ m
  unfolding known_method
  known_method_lem name m h = elim (Option-cases (method_of name)) [
    | inl n ↦ absurd (ground (arith, n))
    | inr (k, q) ↦ ground (arith, q, method_of_known name k q)
  ]

  read_method_known :
      (name stream : List ℕ) (request : UserAuthRequest)
      → read_method e name stream ≡ done request
      → method_none ≢ request.method
  unfolding read_method
  read_method_known name stream request h =
      let build : List ℕ → MethodType → UserAuthRequest = λ rest m. record {
        name = name;
        method = m;
        step = (e.sgetc rest).0;
        rest = (e.sgetc rest).1;
      } in
      let (text, _, a) =
        >>=-done (read_text e max_text_size stream)
          (λ t. known_method e t.0 >>= λ m. done (build t.1 m)) request h in
      let (m, k, b) = >>=-done (known_method e text.0) (λ m. done (build text.1 m)) request a in
      ground (arith, b, known_method_lem text.0 m k)

  read_request_known :
      (packet : List ℕ) (request : UserAuthRequest)
      → read_request e packet ≡ done request
      → method_none ≢ request.method
  unfolding read_request
  read_request_known packet request h =
      let (name, _, a) =
        >>=-done (read_text e max_text_size packet)
          (λ t. read_service e t.1 >>= λ rest. read_method e t.0 rest) request h in
      let (behind, _, b) =
        >>=-done (read_service e name.1) (λ rest. read_method e name.0 rest) request a in
      read_method_known name.0 behind request b

module _ (e : AuthEnvironment) (doc : AuthDocumented e) where
  with_read-IsGuarded :
      (s : AuthSession) (r : Result UserAuthRequest) (initial : Bool)
      → read_request e (packet_read e s.packets_read) ≡ r
      → IsGuarded e s (
          with_read e
            (record s { packets_read = suc s.packets_read })
            (packet_read e s.packets_read)
            r
            credential_username_password
            initial)
  unfolding with_read
  with_read-IsGuarded s (stop st) initial q = record {
    attributes = refl;
    packets_read = refl;
    successes = refl;
    outcome = inl refl;
  }
  with_read-IsGuarded s (done request) initial q =
      let (log, outcome) =
        with_request-Guarded e doc (packet_read e s.packets_read) request q
          (record s { packets_read = suc s.packets_read }) initial
          (read_request_known e (packet_read e s.packets_read) request q) in
      record {
        attributes = log.attributes;
        packets_read = log.packets_read;
        successes = log.successes;
        outcome = outcome;
      }

  pub process_user_auth-IsGuarded :
      (s : AuthSession) (initial : Bool)
      → IsGuarded e s (process_user_auth e s credential_username_password initial)
  unfolding process_user_auth
  process_user_auth-IsGuarded s initial =
      elim (Bool-cases (is_error (e.read_hs_packet_ssh2 s.packets_read min_request_length).0)) [
        | inl t ↦ rw t (record {
          attributes = refl;
          packets_read = refl;
          successes = refl;
          outcome = inl refl;
        })
        | inr t ↦
            rw t
              (with_read-IsGuarded s (read_request e (packet_read e s.packets_read)) initial refl)
      ]
