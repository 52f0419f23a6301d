-- ===== src/Ssh/Authentication/Server/Retry.antt =====
-- An attempt of processFixedAuth with a password, right or wrong.
use bosh_dotnet.Prelude.{
  ℕ, suc, ◌≡◌, ◌≢◌, refl, ap, ◌∙◌, ◌⊎◌, inl, inr, Bool, true, false, List, [], ◌∷◌, Option, none,
  some, length, get_elem?, ◌==◌, if◌then◌else◌, Bool-cases, arith,
}
use bosh_dotnet.Ssh.Status.{Status, ok, ok_special, wrong_key, bad_data, invalid, is_error}
use bosh_dotnet.Ssh.Authentication.State.{
  AuthSession, AuthEnvironment, AuthDocumented, AuthAttribute, user_name, password, MethodType,
  method_password, credential_username_password, userauth_success, userauth_error,
}
use bosh_dotnet.Ssh.Authentication.Responses.{is_query, check_credentials_consistent}
use bosh_dotnet.Ssh.Authentication.Request.{done, UserAuthRequest, read_request, read_password}
use bosh_dotnet.Ssh.Authentication.Publickey.{Verdict, rejected}
use bosh_dotnet.Ssh.Authentication.UserAuth.{
  match_with, match_password, check_password, with_method, resolve_user, select_user, with_user,
  with_given, with_payload, with_request, with_read, process_user_auth, min_request_length,
  is_duplicate,
}
use bosh_dotnet.Ssh.Authentication.Keeps.{successes, check_credentials_consistent-SameLog}
use bosh_dotnet.Ssh.Authentication.Server.{attempt}

-- Packet `n` arrives, and is a password request of the user.
pub record Offers (e : AuthEnvironment) (n : ℕ) (name given : List ℕ) : Type 0 where
  pub request : UserAuthRequest
  pub arrives : is_error (e.read_hs_packet_ssh2 n min_request_length).0 ≡ false
  pub reads : read_request e (e.read_hs_packet_ssh2 n min_request_length).1 ≡ done request
  pub named : request.name ≡ name
  pub method : request.method ≡ method_password
  pub password : read_password e request ≡ done given

-- Wrong passwords from packet `n` on, then the right one.
abbrev pub Tries : AuthEnvironment → ℕ → (name right : List ℕ) → (wrong : List (List ℕ)) → Type 0
Tries e n name right [] = Offers e n name right
Tries e n name right (given ∷ wrong) =
    Offers e n name given × (given ≢ right) × Tries e (suc n) name right wrong

-- The search finds the user name, and the password stands behind it.
pub record Knows (e : AuthEnvironment) (l : List AuthAttribute) (name right : List ℕ) : Type 0 where
  pub position : ℕ
  pub found : e.find_session_info_ex l user_name name ≡ some position
  pub stored : get_elem? l (suc position) ≡ some (record { attribute_id = password; value = right })

pub record AlwaysSends (e : AuthEnvironment) : Type 0 where
  pub opens : (type : ℕ) → is_error (e.open_packet_stream_ssh type) ≡ false
  pub writes : (payload : List ℕ) → is_error (e.write_payload payload) ≡ false
  pub sends : (n : ℕ) (packet : List ℕ) → e.send_packet_ssh2 n packet ≡ ok

-- The first request, or one for the user of the requests before.
abbrev pub Agrees : AuthEnvironment → (name : List ℕ) → AuthSession → Bool → Type 0
Agrees e name s initial = (initial ≡ true) ⊎ (s.auth_user_name_hash ≡ e.sha1 name)

abbrev stored_item : List ℕ → Option AuthAttribute
stored_item right = some (record { attribute_id = password; value = right })

-- The state in which the password is compared.
abbrev compared : AuthSession → ℕ → AuthSession
compared t position = record t { publickey = none; attribute_list_current = some position }

-- What an attempt with a password leaves.
pub record IsTried (e : AuthEnvironment) (name : List ℕ) (s w : AuthSession) : Type 0 where
  pub attributes : w.attributes ≡ s.attributes
  pub packets_read : w.packets_read ≡ suc s.packets_read
  pub successes : successes w.sent ≡ successes s.sent
  pub auth_user_name_hash : w.auth_user_name_hash ≡ e.sha1 name

unfoldable pub tried : AuthEnvironment → (name : List ℕ) → AuthSession → Bool → ℕ → AuthSession
tried e name s initial position =
    compared
      (check_credentials_consistent e (record s { packets_read = suc s.packets_read }) name
        method_password initial).0
      position

module _ (e : AuthEnvironment) (doc : AuthDocumented e) (name right : List ℕ) where
  check-Agrees :
      (s : AuthSession) (initial : Bool)
      → Agrees e name s initial
      → let (t, st) = check_credentials_consistent e s name method_password initial in
        (st ≡ ok) × (t.auth_user_name_hash ≡ e.sha1 name)
  unfolding check_credentials_consistent
  check-Agrees s initial (inl q) = rw q (refl, refl)
  check-Agrees s true (inr q) = (refl, refl)
  check-Agrees s false (inr q) =
      let same : e.compare_data_const_time s.auth_user_name_hash (e.sha1 name) ≡ true =
        rw q (doc.compares_same (e.sha1 name)) in
      elim (Bool-cases (is_query s.auth_type)) [
        | inl t ↦ rw (same, t) (refl, q)
        | inr t ↦ rw (same, t) (refl, q)
      ]

  different_password :
      (given : List ℕ) → given ≢ right → e.compare_data_const_time given right ≡ false
  different_password given n = elim (Bool-cases (e.compare_data_const_time given right)) [
    | inl t ↦ absurd (n (doc.compares given right t))
    | inr t ↦ t
  ]

  match_right :
      (s : AuthSession) → match_with e s (stored_item right) right ≡ (s, userauth_success, ok)
  unfolding match_with
  match_right s =
      let long : (length right == length right) ≡ true = ground arith in
      rw (long, doc.compares_same right) refl

  match_wrong :
      (s : AuthSession) (given : List ℕ)
      → given ≢ right
      → match_with e s (stored_item right) given ≡ rejected s wrong_key
  unfolding match_with
  match_wrong s given n = elim (Bool-cases (length given == length right)) [
    | inl t ↦ rw (t, different_password given n) refl
    | inr t ↦ rw t refl
  ]

  with_user_password :
      (s : AuthSession) (packet : List ℕ) (request : UserAuthRequest) (given : List ℕ)
      (k : Knows e s.attributes name right)
      → request.name ≡ name
      → request.method ≡ method_password
      → with_user e s packet request given credential_username_password
        ≡ match_with e
            (record s { attribute_list_current = some k.position })
            (stored_item right)
            given
  unfolding with_user resolve_user select_user with_method check_password match_password
  with_user_password s packet request given k named method =
      rw (method, named, k.found, k.stored) refl

  with_payload_password :
      (s : AuthSession) (packet : List ℕ) (request : UserAuthRequest) (given : List ℕ)
      (k : Knows e s.attributes name right)
      → request.name ≡ name
      → request.method ≡ method_password
      → read_password e request ≡ done given
      → with_payload e s packet request credential_username_password method_password
        ≡ match_with e (compared s k.position) (stored_item right) given
  unfolding with_payload with_given
  with_payload_password s packet request given k named method reads = rw reads (
      with_user_password (record s { publickey = none }) packet request given
        (record { position = k.position; found = k.found; stored = k.stored }) named method)

  with_request_password :
      (s : AuthSession) (packet : List ℕ) (request : UserAuthRequest) (given : List ℕ)
      (initial : Bool) (k : Knows e s.attributes name right)
      → Agrees e name s initial
      → request.name ≡ name
      → request.method ≡ method_password
      → read_password e request ≡ done given
      → let t = (check_credentials_consistent e s name method_password initial).0 in
        with_request e s packet request credential_username_password initial
        ≡ match_with e (compared t k.position) (stored_item right) given
  unfolding with_request
  with_request_password s packet request given initial k agrees named method reads =
      let (t, st) = check_credentials_consistent e s name method_password initial in
      let log = check_credentials_consistent-SameLog e s name method_password initial in
      let (passed, _) = check-Agrees s initial agrees in
      let known : Knows e t.attributes name right = record {
        position = k.position;
        found = rw log.attributes k.found;
        stored = rw log.attributes k.stored;
      } in
      let behind : AuthSession × Status → MethodType → Verdict = λ c m.
        if is_error c.1
        then rejected c.0 (if is_duplicate c.1 then bad_data else invalid)
        else with_payload e c.0 packet request credential_username_password m in
      ap (λ n. behind (check_credentials_consistent e s n request.method initial) request.method)
        named
      ∙ ap (λ m. behind (check_credentials_consistent e s name m initial) m) method
      ∙ ap (λ o. behind (t, o) method_password) passed
      ∙ with_payload_password t packet request given known named method reads

  -- One request with a password, in terms of the comparison.
  attempt_password :
      (s : AuthSession) (given : List ℕ) (initial : Bool) (k : Knows e s.attributes name right)
      → Agrees e name s initial
      → Offers e s.packets_read name given
      → let u = record s { packets_read = suc s.packets_read } in
        let t = (check_credentials_consistent e u name method_password initial).0 in
        process_user_auth e s credential_username_password initial
        ≡ match_with e (compared t k.position) (stored_item right) given
  unfolding process_user_auth with_read
  attempt_password s given initial k agrees o =
      rw (o.arrives, o.reads)
        (with_request_password (record s { packets_read = suc s.packets_read })
          (e.read_hs_packet_ssh2 s.packets_read min_request_length).1 o.request given initial
          (record { position = k.position; found = k.found; stored = k.stored }) agrees o.named
          o.method o.password)

  pub tried-IsTried :
      (s : AuthSession) (initial : Bool) (position : ℕ)
      → Agrees e name s initial
      → IsTried e name s (tried e name s initial position)
  unfolding tried
  tried-IsTried s initial position agrees =
      let u = record s { packets_read = suc s.packets_read } in
      let log = check_credentials_consistent-SameLog e u name method_password initial in
      record {
        attributes = log.attributes;
        packets_read = log.packets_read;
        successes = log.successes;
        auth_user_name_hash = (check-Agrees u initial agrees).1;
      }

  pub right-attempt :
      (s : AuthSession) (initial : Bool) (k : Knows e s.attributes name right)
      → Agrees e name s initial
      → Offers e s.packets_read name right
      → attempt e s initial ≡ (
        tried e name s initial k.position,
        record { user_auth_info = userauth_success; canary = ok_special; status = ok },
      )
  unfolding attempt tried
  right-attempt s initial k agrees o =
      rw
        (
          attempt_password s right initial k agrees o,
          match_right (tried e name s initial k.position),
        )
        refl

  pub wrong-attempt :
      (s : AuthSession) (given : List ℕ) (initial : Bool) (k : Knows e s.attributes name right)
      → given ≢ right
      → Agrees e name s initial
      → Offers e s.packets_read name given
      → attempt e s initial ≡ (
        tried e name s initial k.position,
        record { user_auth_info = userauth_error; canary = ok_special; status = wrong_key },
      )
  unfolding attempt tried
  wrong-attempt s given initial k n agrees o =
      rw
        (
          attempt_password s given initial k agrees o,
          match_wrong (tried e name s initial k.position) given n,
        )
        refl
