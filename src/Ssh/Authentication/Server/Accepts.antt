-- ===== src/Ssh/Authentication/Server/Accepts.antt =====
-- processFixedAuth lets a client in that knows the password and mistypes it twice at most.
use bosh_dotnet.Prelude.{
  ℕ, zero, suc, ◌≤◌, ◌≡◌, ◌≢◌, refl, ap, ◌∙◌, inl, inr, Bool, true, false, List, [], ◌∷◌, length,
  arith,
}
use bosh_dotnet.Ssh.Status.{Status, ok, is_error}
use bosh_dotnet.Ssh.Authentication.State.{AuthSession, AuthEnvironment, AuthDocumented}
use bosh_dotnet.Ssh.Authentication.Responses.{
  msg_userauth_success, msg_userauth_failure, failure_payload, send_response_failure,
  send_response_success,
}
use bosh_dotnet.Ssh.Authentication.Keeps.{successes, send_response_failure-Keeps}
use bosh_dotnet.Ssh.Authentication.Server.{settled, fixed_attempts, process_fixed_auth}
use bosh_dotnet.Ssh.Authentication.Server.Retry.{
  Offers, Tries, Knows, AlwaysSends, Agrees, IsTried, tried, tried-IsTried, right-attempt,
  wrong-attempt,
}

module _ (e : AuthEnvironment) (doc : AuthDocumented e) (name right : List ℕ)
    (sends : AlwaysSends e) where
  send_response_success_lem :
      (w : AuthSession)
      → ((send_response_success e w).1 ≡ ok)
        × (successes (send_response_success e w).0.sent ≡ suc (successes w.sent))
  unfolding send_response_success
  send_response_success_lem w =
      rw (sends.opens msg_userauth_success) (sends.sends (length w.sent) _, refl)

  send_response_failure_ok : (w : AuthSession) → is_error (send_response_failure e w true).1 ≡ false
  unfolding send_response_failure
  send_response_failure_ok w =
      rw
        (
          sends.opens msg_userauth_failure,
          sends.writes (failure_payload true),
          sends.sends (length w.sent),
        )
        refl

  right_accepted :
      (left : ℕ) (s : AuthSession) (initial : Bool) (k : Knows e s.attributes name right)
      → Agrees e name s initial
      → Offers e s.packets_read name right
      → fixed_attempts e left initial s
        ≡ send_response_success e (tried e name s initial k.position)
  unfolding fixed_attempts settled
  right_accepted zero s initial k agrees o =
      rw (right-attempt e doc name right s initial k agrees o) refl
  right_accepted (suc left) s initial k agrees o =
      rw (right-attempt e doc name right s initial k agrees o) refl

  wrong_retried :
      (left : ℕ) (s : AuthSession) (given : List ℕ) (initial : Bool)
      (k : Knows e s.attributes name right)
      → given ≢ right
      → Agrees e name s initial
      → Offers e s.packets_read name given
      → fixed_attempts e (suc left) initial s
        ≡ fixed_attempts e left false
            (send_response_failure e (tried e name s initial k.position) true).0
  unfolding fixed_attempts settled
  wrong_retried left s given initial k n agrees o =
      rw
        (
          wrong-attempt e doc name right s given initial k n agrees o,
          send_response_failure_ok (tried e name s initial k.position),
        )
        refl

  abbrev IsAccepted : AuthSession → AuthSession × Status → Type 0
  IsAccepted s (t, st) = (st ≡ ok) × (successes t.sent ≡ suc (successes s.sent))

  right-IsAccepted :
      (left : ℕ) (s : AuthSession) (initial : Bool) (k : Knows e s.attributes name right)
      → Agrees e name s initial
      → Offers e s.packets_read name right
      → IsAccepted s (fixed_attempts e left initial s)
  right-IsAccepted left s initial k agrees o =
      let w = tried e name s initial k.position in
      let (fine, more) = send_response_success_lem w in
      rw (right_accepted left s initial k agrees o)
        (fine, more ∙ ap suc (tried-IsTried e doc name right s initial k.position agrees).successes)

  -- The state behind a refused password.
  wrong_kept :
      (s : AuthSession) (initial : Bool) (position : ℕ)
      → Agrees e name s initial
      → IsTried e name s (send_response_failure e (tried e name s initial position) true).0
  wrong_kept s initial position agrees =
      let first = tried-IsTried e doc name right s initial position agrees in
      let kept = send_response_failure-Keeps e (tried e name s initial position) true in
      record {
        attributes = kept.log.attributes ∙ first.attributes;
        packets_read = kept.log.packets_read ∙ first.packets_read;
        successes = kept.log.successes ∙ first.successes;
        auth_user_name_hash = kept.auth_user_name_hash ∙ first.auth_user_name_hash;
      }

  fixed_attempts-IsAccepted :
      (left : ℕ) (wrong : List (List ℕ)) (s : AuthSession) (initial : Bool)
      → length wrong ≤ left
      → Knows e s.attributes name right
      → Agrees e name s initial
      → Tries e s.packets_read name right wrong
      → IsAccepted s (fixed_attempts e left initial s)
  fixed_attempts-IsAccepted left [] s initial few k agrees o =
      right-IsAccepted left s initial k agrees o
  fixed_attempts-IsAccepted zero (given ∷ wrong) s initial few k agrees o = absurd (omega arith)
  fixed_attempts-IsAccepted (suc left) (given ∷ wrong) s initial few k agrees (o, n, later) =
      let u = (send_response_failure e (tried e name s initial k.position) true).0 in
      let kept = wrong_kept s initial k.position agrees in
      let known : Knows e u.attributes name right = record {
        position = k.position;
        found = rw kept.attributes k.found;
        stored = rw kept.attributes k.stored;
      } in
      let rest =
        fixed_attempts-IsAccepted left wrong u false (omega arith) known
          (inr kept.auth_user_name_hash) (rw kept.packets_read later) in
      rw (wrong_retried left s given initial k n agrees o) (rest.0, rest.1 ∙ ap suc kept.successes)

  -- When every response can be sent and the caller's list holds the user name with its password
  -- behind it, a client that sends password requests for this user, at most two wrong passwords and
  -- then the right one, is let in: `processFixedAuth` returns CRYPT_OK, and has sent exactly one
  -- success response.
  pub process_fixed_auth_accepts :
      (s : AuthSession) (wrong : List (List ℕ))
      → length wrong ≤ 2
      → Knows e s.attributes name right
      → Tries e s.packets_read name right wrong
      → let (t, st) = process_fixed_auth e s in
        (st ≡ ok) × (successes t.sent ≡ suc (successes s.sent))
  unfolding process_fixed_auth
  process_fixed_auth_accepts s wrong few k tries =
      fixed_attempts-IsAccepted 2 wrong s true few k (inl refl) tries
