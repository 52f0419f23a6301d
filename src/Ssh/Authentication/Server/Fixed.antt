-- ===== src/Ssh/Authentication/Server/Fixed.antt =====
-- One attempt of processFixedAuth.
use bosh_dotnet.Prelude.{
  ℕ, ◌+◌, ◌≤◌, ◌<◌, ◌≡◌, subst, ◌∙◌, ◌⊎◌, inl, inr, Bool, false, ◌&&◌, Bool-cases, arith,
}
use bosh_dotnet.Ssh.Status.{is_special}
use bosh_dotnet.Ssh.Authentication.State.{
  AuthSession, AuthEnvironment, AuthDocumented, UserAuthType, credential_username_password,
}
use bosh_dotnet.Ssh.Authentication.Publickey.{Verdict}
use bosh_dotnet.Ssh.Authentication.UserAuth.{is_noop, is_success, process_user_auth}
use bosh_dotnet.Ssh.Authentication.Keeps.{successes}
use bosh_dotnet.Ssh.Authentication.Grants.{Grants}
use bosh_dotnet.Ssh.Authentication.Grants.Packet.{
  packet_read, IsGuarded, process_user_auth-IsGuarded,
}
use bosh_dotnet.Ssh.Authentication.Server.{attempt}

-- A packet that the client sent between two states of the session grants success.
abbrev pub Granted : AuthEnvironment → AuthSession → AuthSession → Type 0
Granted e s t =
    (n : ℕ) × (s.packets_read ≤ n) × (n < t.packets_read) × Grants e s.attributes (packet_read e n)

-- At most `k` packets were read, and at least one.
pub record Reads (k : ℕ) (s t : AuthSession) : Type 0 where
  pub attributes : t.attributes ≡ s.attributes
  pub some_read : s.packets_read < t.packets_read
  pub few_read : t.packets_read ≤ s.packets_read + k

-- What an attempt does: success is reported to the caller with a grant only, and never to the client.
pub record IsAttempt (e : AuthEnvironment) (s t : AuthSession) (info : UserAuthType) : Type 0 where
  pub reads : Reads 2 s t
  pub successes : successes t.sent ≡ successes s.sent
  pub outcome : (is_success info ≡ false) ⊎ Granted e s t

module _ (e : AuthEnvironment) (doc : AuthDocumented e) where
  once-IsAttempt : (s : AuthSession) (v : Verdict) → IsGuarded e s v → IsAttempt e s v.0 v.1
  once-IsAttempt s v g = record {
    reads = record {
      attributes = g.attributes;
      some_read = omega (arith, g.packets_read);
      few_read = omega (arith, g.packets_read);
    };
    successes = g.successes;
    outcome = elim g.outcome [
      | inl n ↦ inl n
      | inr grant ↦ inr (s.packets_read, omega arith, omega (arith, g.packets_read), grant)
    ];
  }

  twice-IsAttempt :
      (s : AuthSession) (v w : Verdict)
      → IsGuarded e s v
      → IsGuarded e v.0 w
      → IsAttempt e s w.0 w.1
  twice-IsAttempt s v w g h = record {
    reads = record {
      attributes = h.attributes ∙ g.attributes;
      some_read = omega (arith, g.packets_read, h.packets_read);
      few_read = omega (arith, g.packets_read, h.packets_read);
    };
    successes = h.successes ∙ g.successes;
    outcome = elim h.outcome [
      | inl n ↦ inl n
      | inr grant ↦ inr (
        v.0.packets_read,
        omega (arith, g.packets_read),
        omega (arith, h.packets_read),
        subst (λ l. Grants e l (packet_read e v.0.packets_read)) g.attributes grant,
      )
    ];
  }

  pub attempt-IsAttempt :
      (s : AuthSession) (initial : Bool)
      → IsAttempt e s (attempt e s initial).0 (attempt e s initial).1.user_auth_info
  unfolding attempt
  attempt-IsAttempt s initial =
      let v = process_user_auth e s credential_username_password initial in
      let g = process_user_auth-IsGuarded e doc s initial in
      elim (Bool-cases (is_special v.2 && is_noop v.1)) [
        | inl t ↦ rw t (
            twice-IsAttempt s v (process_user_auth e v.0 credential_username_password false) g
              (process_user_auth-IsGuarded e doc v.0 false))
        | inr t ↦ rw t (once-IsAttempt s v g)
      ]
