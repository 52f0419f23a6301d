-- ===== src/Ssh/Authentication/Keeps.antt =====
-- What the steps of ssh2_auths.c leave alone: the attribute list, the packets that were read, the
-- number of success responses, the recorded user name.
use bosh_dotnet.Prelude.{
  ℕ, arith, suc, ◌≡◌, refl, ◌∙◌, Bool, false, List, [], ◌∷◌, ◌==◌, inl, inr, if◌then◌else◌, ◌++◌,
  Bool-cases,
}
use bosh_dotnet.Ssh.Status.{Status, is_error}
use bosh_dotnet.Ssh.Authentication.State.{AuthSession, AuthEnvironment, MethodType}
use bosh_dotnet.Ssh.Authentication.Responses.{
  msg_userauth_success, msg_userauth_failure, failure_payload, string32, send_packet,
  send_response_failure, check_credentials_consistent,
}
use bosh_dotnet.Ssh.Authentication.Request.{Result, stop, done, UserAuthRequest}
use bosh_dotnet.Ssh.Authentication.Publickey.{
  Verdict, rejected, msg_userauth_pk_ok, send_pk_ok, answer_read, answer_probe, record_verified,
  record_publickey, accept_signed, is_probe, do_publickey_auth,
}

abbrev pub is_success_packet : List ℕ → Bool
is_success_packet [] = false
is_success_packet (type ∷ l) = type == msg_userauth_success

-- The number of success responses among the packets that were sent.
abbrev pub successes : List (List ℕ) → ℕ
successes [] = 0
successes (p ∷ l) = if is_success_packet p then suc (successes l) else successes l

pub record SameLog (s t : AuthSession) : Type 0 where
  pub attributes : t.attributes ≡ s.attributes
  pub auth_read : t.auth_read ≡ s.auth_read
  pub packets_read : t.packets_read ≡ s.packets_read
  pub successes : successes t.sent ≡ successes s.sent

pub record Keeps (s t : AuthSession) : Type 0 where
  pub log : SameLog s t
  pub auth_user_name_hash : t.auth_user_name_hash ≡ s.auth_user_name_hash

pub SameLog-refl : (s : AuthSession) → SameLog s s
SameLog-refl s = record {
  attributes = refl;
  auth_read = refl;
  packets_read = refl;
  successes = refl;
}

SameLog-retyped :
    (s : AuthSession) (hash : List ℕ) (type : MethodType)
    → SameLog s (record s { auth_user_name_hash = hash; auth_type = type })
SameLog-retyped s hash type = record {
  attributes = refl;
  auth_read = refl;
  packets_read = refl;
  successes = refl;
}

pub Keeps-refl : (s : AuthSession) → Keeps s s
Keeps-refl s = record { log = SameLog-refl s; auth_user_name_hash = refl }

pub SameLog-trans : {s t u : AuthSession} → SameLog s t → SameLog t u → SameLog s u
SameLog-trans p q = record {
  attributes = q.attributes ∙ p.attributes;
  auth_read = q.auth_read ∙ p.auth_read;
  packets_read = q.packets_read ∙ p.packets_read;
  successes = q.successes ∙ p.successes;
}

pub Keeps-trans : {s t u : AuthSession} → Keeps s t → Keeps t u → Keeps s u
Keeps-trans p q = record {
  log = SameLog-trans p.log q.log;
  auth_user_name_hash = q.auth_user_name_hash ∙ p.auth_user_name_hash;
}

module _ (e : AuthEnvironment) (s : AuthSession) where
  -- A packet of another type than success.
  send_packet-Keeps :
      (packet : List ℕ) → is_success_packet packet ≡ false → Keeps s (send_packet e s packet).0
  send_packet-Keeps packet h = record {
    log = record {
      attributes = refl;
      auth_read = refl;
      packets_read = refl;
      successes = rw h refl;
    };
    auth_user_name_hash = refl;
  }

  -- A packet that is sent unless an error comes first.
  unless_error :
      (st : Status) (v : AuthSession × Status)
      → Keeps s v.0
      → Keeps s (if is_error st then (s, st) else v).0
  unless_error st v k = elim (Bool-cases (is_error st)) [
    | inl t ↦ rw t (Keeps-refl s)
    | inr t ↦ rw t k
  ]

  unless_rejected :
      (st : Status) (v : Verdict)
      → Keeps s v.0
      → Keeps s (if is_error st then rejected s st else v).0
  unless_rejected st v k = elim (Bool-cases (is_error st)) [
    | inl t ↦ rw t (Keeps-refl s)
    | inr t ↦ rw t k
  ]

  pub send_response_failure-Keeps : (allow : Bool) → Keeps s (send_response_failure e s allow).0
  unfolding send_response_failure
  send_response_failure-Keeps allow =
      unless_error (e.open_packet_stream_ssh msg_userauth_failure) _
        (unless_error (e.write_payload (failure_payload allow)) _ (send_packet-Keeps _ refl))

  pub check_credentials_consistent-SameLog :
      (name : List ℕ) (method : MethodType) (initial : Bool)
      → SameLog s (check_credentials_consistent e s name method initial).0
  unfolding check_credentials_consistent
  check_credentials_consistent-SameLog name method initial = record {
    attributes = ground arith;
    auth_read = ground arith;
    packets_read = ground arith;
    successes = ground arith;
  }

  send_pk_ok-Keeps : (algorithm blob : List ℕ) → Keeps s (send_pk_ok e s algorithm blob).0
  unfolding send_pk_ok
  send_pk_ok-Keeps algorithm blob =
      unless_rejected (e.open_packet_stream_ssh msg_userauth_pk_ok) _ (
        unless_rejected (e.write_payload (string32 algorithm)) _ (
          unless_rejected (e.write_payload (string32 algorithm ++ string32 blob)) _
            (send_packet-Keeps _ refl)))

  answer_read-Keeps : (read : Result (List ℕ × List ℕ)) → Keeps s (answer_read e s read).0
  unfolding answer_read
  answer_read-Keeps (stop st) = Keeps-refl s
  answer_read-Keeps (done (algorithm, blob)) = send_pk_ok-Keeps algorithm blob

  pub record_publickey-Keeps : (key : List ℕ) → Keeps s (record_publickey e s key).0
  unfolding record_publickey
  record_publickey-Keeps key = elim (Bool-cases (is_error (e.base64encode key).0)) [
    | inl t ↦ rw t kept
    | inr t ↦ rw t kept
  ]
    where
      kept : Keeps s (record s { publickey = (e.base64encode key).1 })
      kept = record {
        log = record { attributes = refl; auth_read = refl; packets_read = refl; successes = refl };
        auth_user_name_hash = refl;
      }

  record_verified-Keeps : (verified : Result (List ℕ)) → Keeps s (record_verified e s verified).0
  unfolding record_verified
  record_verified-Keeps (stop st) = Keeps-refl s
  record_verified-Keeps (done key) = record_publickey-Keeps key

  pub do_publickey_auth-Keeps :
      (packet : List ℕ) (request : UserAuthRequest)
      → Keeps s (do_publickey_auth e s packet request).0
  unfolding do_publickey_auth answer_probe accept_signed
  do_publickey_auth-Keeps packet request = elim (Bool-cases (is_probe request.step)) [
    | inl t ↦ rw t (answer_read-Keeps _)
    | inr t ↦ rw t (record_verified-Keeps _)
  ]
