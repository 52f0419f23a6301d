-- ===== src/Ssh/Authentication/Server/Attempts.antt =====
-- processFixedAuth: what success takes, and how long it lasts.
use bosh_dotnet.Prelude.{
  ℕ, zero, suc, ◌+◌, ◌*◌, ◌≤◌, ◌≡◌, ◌≢◌, subst, ◌∙◌, ◌⊎◌, inl, inr, Bool, true, false, not,
  if◌then◌else◌, Bool-cases, arith,
}
use bosh_dotnet.Ssh.Status.{Status, ok, internal, is_error, is_special}
use bosh_dotnet.Ssh.Authentication.State.{
  AuthSession, AuthEnvironment, AuthDocumented, UserAuthType,
}
use bosh_dotnet.Ssh.Authentication.Responses.{
  msg_userauth_success, send_response_success, send_response_failure,
}
use bosh_dotnet.Ssh.Authentication.Keeps.{successes, send_response_failure-Keeps, Keeps}
use bosh_dotnet.Ssh.Authentication.Grants.{Grants}
use bosh_dotnet.Ssh.Authentication.Grants.Packet.{packet_read}
use bosh_dotnet.Ssh.Authentication.Server.{
  FailsafeAuthInfo, is_wrong_key, matches_template, attempt, last_failure, settled, fixed_attempts,
  process_fixed_auth,
}
use bosh_dotnet.Ssh.Authentication.Server.Fixed.{Granted, Reads, IsAttempt, attempt-IsAttempt}

-- What processFixedAuth returns: with a grant, or with an error and no success response.
pub record IsFixed (e : AuthEnvironment) (k : ℕ) (s : AuthSession) (r : AuthSession × Status)
    : Type 0 where
  pub reads : Reads k s r.0
  pub outcome : Granted e s r.0 ⊎ ((successes r.0.sent ≡ successes s.sent) × (r.1 ≢ ok))

error_not_ok : (st : Status) → is_error st ≡ true → st ≢ ok
error_not_ok st h q = absurd (ground (arith, q))

Reads-more : {k m : ℕ} {s t : AuthSession} → k ≤ m → Reads k s t → Reads m s t
Reads-more h r = record {
  attributes = r.attributes;
  some_read = r.some_read;
  few_read = omega (arith, r.few_read);
}

-- A step that reads nothing comes after.
Reads-kept : {k : ℕ} {s t u : AuthSession} → Reads k s t → Keeps t u → Reads k s u
Reads-kept r kept = record {
  attributes = kept.log.attributes ∙ r.attributes;
  some_read = omega (arith, r.some_read, kept.log.packets_read);
  few_read = omega (arith, r.few_read, kept.log.packets_read);
}

module _ (e : AuthEnvironment) (s t : AuthSession) (info : UserAuthType)
    (tried : IsAttempt e s t info) where
  -- The success response, after an attempt with a grant.
  send_response_success-IsFixed : Granted e s t → IsFixed e 2 s (send_response_success e t)
  unfolding send_response_success
  send_response_success-IsFixed grant =
      elim (Bool-cases (is_error (e.open_packet_stream_ssh msg_userauth_success))) [
        | inl h ↦ rw h (record { reads = tried.reads; outcome = inl grant })
        | inr h ↦ rw h (record {
          reads = record {
            attributes = tried.reads.attributes;
            some_read = tried.reads.some_read;
            few_read = tried.reads.few_read;
          };
          outcome = inl grant;
        })
      ]

  failure-IsFixed :
      (allow : Bool) (st : Status)
      → st ≢ ok
      → IsFixed e 2 s ((send_response_failure e t allow).0, st)
  failure-IsFixed allow st h =
      let kept = send_response_failure-Keeps e t allow in
      record {
        reads = Reads-kept tried.reads kept;
        outcome = inr (kept.log.successes ∙ tried.successes, h);
      }

  last_failure-IsFixed : (st : Status) → st ≢ ok → IsFixed e 2 s (last_failure e t st)
  unfolding last_failure
  last_failure-IsFixed st h = elim (Bool-cases (is_special st)) [
    | inl special ↦ rw special (failure-IsFixed false internal (λ q. cc))
    | inr plain ↦ rw plain (failure-IsFixed false st h)
  ]

IsFixed-more :
    {e : AuthEnvironment} {k m : ℕ} {s : AuthSession} {r : AuthSession × Status}
    → k ≤ m
    → IsFixed e k s r
    → IsFixed e m s r
IsFixed-more h f = record { reads = Reads-more h f.reads; outcome = f.outcome }

-- The attempts behind a failed one.
IsFixed-after :
    (e : AuthEnvironment) (k : ℕ) (s u : AuthSession) (r : AuthSession × Status)
    → Reads 2 s u
    → successes u.sent ≡ successes s.sent
    → IsFixed e k u r
    → IsFixed e (2 + k) s r
IsFixed-after e k s u r first quiet f = record {
  reads = record {
    attributes = f.reads.attributes ∙ first.attributes;
    some_read = omega (arith, first.some_read, f.reads.some_read);
    few_read = omega (arith, first.few_read, f.reads.few_read);
  };
  outcome = elim f.outcome [
    | inl (n, low, high, grant) ↦ inl (
      n,
      omega (arith, low, first.some_read),
      high,
      subst (λ l. Grants e l (packet_read e n)) first.attributes grant,
    )
    | inr (same, failing) ↦ inr (same ∙ quiet, failing)
  ];
}

module _ (e : AuthEnvironment) (doc : AuthDocumented e) where
  settled-IsFixed :
      (k : ℕ) (s t : AuthSession) (info : FailsafeAuthInfo) (failing : AuthSession × Status)
      → IsAttempt e s t info.user_auth_info
      → (is_error info.status ≡ true → IsFixed e (2 + k) s failing)
      → IsFixed e (2 + k) s (settled e t info failing)
  unfolding settled
  settled-IsFixed k s t info failing tried after = elim (Bool-cases (matches_template info)) [
    | inl m ↦ rw m (
        IsFixed-more (omega arith) (
          send_response_success-IsFixed e s t info.user_auth_info tried
            (elim tried.outcome [ inl n ↦ absurd (ground (arith, n, m)) | inr grant ↦ grant ])))
    | inr m ↦ elim (Bool-cases (is_error info.status)) [
      | inl wrong ↦ rw (m, wrong) (after wrong)
      | inr fine ↦
          rw (m, fine)
            (record {
              reads = Reads-more (omega arith) tried.reads;
              outcome = inr (tried.successes, λ q. cc);
            })
    ]
  ]

  fixed_attempts-IsFixed :
      (left : ℕ) (initial : Bool) (s : AuthSession)
      → IsFixed e (2 + 2 * left) s (fixed_attempts e left initial s)
  unfolding fixed_attempts
  fixed_attempts-IsFixed zero initial s =
      let (t, info) = attempt e s initial in
      let tried = attempt-IsAttempt e doc s initial in
      settled-IsFixed 0 s t info (last_failure e t info.status) tried (λ wrong.
        last_failure-IsFixed e s t info.user_auth_info tried info.status
          (error_not_ok info.status wrong))
  fixed_attempts-IsFixed (suc left) initial s =
      let (t, info) = attempt e s initial in
      let tried = attempt-IsAttempt e doc s initial in
      let answered = send_response_failure e t true in
      let kept = send_response_failure-Keeps e t true in
      let rest = fixed_attempts e left false answered.0 in
      let failing : AuthSession × Status =
        if not (is_wrong_key info.status)
        then last_failure e t info.status
        else if is_error answered.1
        then answered
        else rest in
      settled-IsFixed (2 * suc left) s t info failing tried (λ wrong.
        elim (Bool-cases (is_wrong_key info.status)) [
          | inr fatal ↦ rw fatal (
              IsFixed-more (omega arith) (
                last_failure-IsFixed e s t info.user_auth_info tried info.status
                  (error_not_ok info.status wrong)))
          | inl retry ↦ elim (Bool-cases (is_error answered.1)) [
            | inl unsent ↦
                rw (retry, unsent)
                  (IsFixed-more (omega arith) (
                    failure-IsFixed e s t info.user_auth_info tried true answered.1
                      (error_not_ok answered.1 unsent)))
            | inr sent ↦
                rw (retry, sent)
                  (IsFixed-more (omega arith) (
                    IsFixed-after e (2 + 2 * left) s answered.0 rest (Reads-kept tried.reads kept)
                      (kept.log.successes ∙ tried.successes)
                      (fixed_attempts-IsFixed left false answered.0)))
          ]
        ])

  -- `processFixedAuth` either read, while it ran, a packet that is an authentication request for a
  -- user of the caller's attribute list with the password stored behind the name (a signed request
  -- whose signature checks stands for KE_EMPTY_PASSWORD), or it sends no success response and does
  -- not return CRYPT_OK.
  pub process_fixed_auth-Granted :
      (s : AuthSession)
      → let (t, st) = process_fixed_auth e s in
        Granted e s t ⊎ ((successes t.sent ≡ successes s.sent) × (st ≢ ok))
  unfolding process_fixed_auth
  process_fixed_auth-Granted s = (fixed_attempts-IsFixed 2 true s).outcome

  -- `processFixedAuth` asks the client for at least one and at most six packets, whatever the
  -- client sends, and leaves the caller's credentials as they were.
  pub process_fixed_auth-Reads : (s : AuthSession) → Reads 6 s (process_fixed_auth e s).0
  unfolding process_fixed_auth
  process_fixed_auth-Reads s = (fixed_attempts-IsFixed 2 true s).reads
