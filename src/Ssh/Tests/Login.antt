-- ===== src/Ssh/Tests/Login.antt =====
-- Runs of the server's side of user authentication.
use bosh_dotnet.Prelude.{
  ℕ, zero, suc, ◌≡◌, ◌≢◌, refl, ◌⊎◌, true, false, List, [], ◌∷◌, ◌++◌, none, some, arith, ap,
  length,
}
use bosh_dotnet.Ssh.Status.{ok, overrun}
use bosh_dotnet.Ssh.Channel.Response.{uint32_bytes}
use bosh_dotnet.Ssh.Authentication.State.{
  AuthSession, user_name, password, method_none, method_password, authresponse_none,
  authresponse_failed,
}
use bosh_dotnet.Ssh.Authentication.Responses.{string32}
use bosh_dotnet.Ssh.Authentication.Request.{
  UserAuthRequest, connection_service, password_name, read_request, read_text, read_service,
  read_method, known_method, method_of, read_password, ◌>>=◌, ◌>>◌, stop,
}
use bosh_dotnet.Ssh.Authentication.Publickey.{read_key, verify_request, guard}
use bosh_dotnet.Ssh.Authentication.Publickey.Signed.{
  signed_request, signing_data, length-signing_data, check_signed, verify_request_signed,
  verify_request_overruns,
}
use bosh_dotnet.Ssh.Authentication.Keeps.{successes}
use bosh_dotnet.Ssh.Authentication.Server.{accepted, process_fixed_auth, process_server_auth}
use bosh_dotnet.Ssh.Authentication.Server.Fixed.{Granted, Reads}
use bosh_dotnet.Ssh.Authentication.Server.Attempts.{
  process_fixed_auth-Granted, process_fixed_auth-Reads,
}
use bosh_dotnet.Ssh.Authentication.Server.Passes.{
  here, next, pass, answer, IsConsistent, Passes-IsConsistent, process_server_auth-accepted,
}
use bosh_dotnet.Ssh.Authentication.Server.Retry.{Offers, Knows, AlwaysSends}
use bosh_dotnet.Ssh.Authentication.Server.Accepts.{process_fixed_auth_accepts}
use bosh_dotnet.Ssh.Tests.Authentication.{login, login-AuthDocumented, login-ReadsStrings}

-- "u" with the password "p", and the packets of a client that first tries "x".
abbrev user : List ℕ
user = 117 ∷ []

abbrev right : List ℕ
right = 112 ∷ []

abbrev wrong : List ℕ
wrong = 120 ∷ []

abbrev password_request : List ℕ → List ℕ
password_request given =
    string32 user
    ++ (string32 connection_service ++ (string32 password_name ++ (0 ∷ (string32 given ++ []))))

abbrev client : ℕ → List ℕ
client zero = password_request wrong
client (suc n) = password_request right

abbrev fresh : AuthSession
fresh = record {
  attributes = [];
  attribute_list_current = none;
  auth_user_name_hash = [];
  auth_type = method_none;
  auth_read = false;
  auth_response = authresponse_none;
  publickey = none;
  packets_read = 0;
  sent = [];
}

abbrev session_with_user : AuthSession
session_with_user = record fresh {
  attributes =
      record { attribute_id = user_name; value = user }
      ∷ record { attribute_id = password; value = right }
      ∷ [];
}

abbrev request_with : List ℕ → UserAuthRequest
request_with given = record {
  name = user;
  method = method_password;
  step = some 0;
  rest = string32 given ++ [];
}

wrong_offer : Offers (login client) 0 user wrong
unfolding uint32_bytes read_request read_text read_service read_method known_method method_of
    read_password
wrong_offer = record {
  request = request_with wrong;
  arrives = refl;
  reads = refl;
  named = refl;
  method = refl;
  password = refl;
}

right_offer : Offers (login client) 1 user right
unfolding uint32_bytes read_request read_text read_service read_method known_method method_of
    read_password
right_offer = record {
  request = request_with right;
  arrives = refl;
  reads = refl;
  named = refl;
  method = refl;
  password = refl;
}

user_known : Knows (login client) session_with_user.attributes user right
user_known = record { position = 0; found = refl; stored = refl }

always : AlwaysSends (login client)
always = record { opens = λ type. refl; writes = λ payload. refl; sends = λ n packet. refl }

wrong_ne_right : wrong ≢ right
wrong_ne_right h = ground arith

process_fixed_auth_accepts_example :
    let (t, st) = process_fixed_auth (login client) session_with_user in
    (st ≡ ok) × (successes t.sent ≡ suc (successes session_with_user.sent))
process_fixed_auth_accepts_example =
    process_fixed_auth_accepts (login client) (login-AuthDocumented client) user right always
      session_with_user (wrong ∷ []) (omega arith) user_known
      (wrong_offer, wrong_ne_right, right_offer)

process_fixed_auth-Granted_example :
    let (t, st) = process_fixed_auth (login client) session_with_user in
    Granted (login client) session_with_user t
    ⊎ ((successes t.sent ≡ successes session_with_user.sent) × (st ≢ ok))
process_fixed_auth-Granted_example =
    process_fixed_auth-Granted (login client) (login-AuthDocumented client) session_with_user

process_fixed_auth-Reads_example :
    Reads 6 session_with_user (process_fixed_auth (login client) session_with_user).0
process_fixed_auth-Reads_example =
    process_fixed_auth-Reads (login client) (login-AuthDocumented client) session_with_user

process_server_auth-accepted_example :
    ((fresh.auth_read ≡ true) × (accepted fresh.auth_response ≡ true))
    ⊎ (successes (process_server_auth (login client) fresh false).0.sent ≡ successes fresh.sent)
process_server_auth-accepted_example =
    process_server_auth-accepted (login client) (login-AuthDocumented client) fresh

-- Two passes, the first refused by the caller.
refused : AuthSession
refused = record (process_server_auth (login client) fresh false).0 {
  auth_response = authresponse_failed;
}

Passes-IsConsistent_example :
    IsConsistent (login client) (process_server_auth (login client) refused false).0
unfolding refused
Passes-IsConsistent_example =
    Passes-IsConsistent (login client) (login-AuthDocumented client) refl refl
      (next (next (next here (pass fresh)) (answer _ authresponse_failed)) (pass refused))

verify_request_signed_example :
    let packet = signed_request user (49 ∷ []) (50 ∷ []) (7 ∷ []) in
    (read_request (login client) packet >>= verify_request (login client) packet) ≡ (
      read_key (login client) (50 ∷ []) >>= λ k.
      check_signed
        (login client)
        k
        (50 ∷ [])
        (signing_data (1 ∷ 2 ∷ []) user (49 ∷ []) (50 ∷ []))
        (7 ∷ []))
verify_request_signed_example =
    verify_request_signed (login client) (login-ReadsStrings client) user (49 ∷ []) (50 ∷ [])
      (7 ∷ []) (omega arith, omega arith) (omega arith, omega arith) (omega arith, omega arith)
      (omega arith, omega arith)
      (omega (arith, length-signing_data (1 ∷ 2 ∷ []) user (49 ∷ []) (50 ∷ [])))

zeros : ℕ → List ℕ
zeros zero = []
zeros (suc n) = 0 ∷ zeros n

length-zeros : (n : ℕ) → length (zeros n) ≡ n
unfolding zeros
length-zeros zero = refl
length-zeros (suc n) = ap suc (length-zeros n)

verify_request_overruns_example :
    let packet = signed_request user (49 ∷ []) (zeros 5000) (7 ∷ []) in
    (read_request (login client) packet >>= verify_request (login client) packet) ≡ (
      read_key (login client) (zeros 5000) >>= λ k.
      guard ((login client).load_key k) >> guard (login client).create_hash_context >> stop overrun)
verify_request_overruns_example =
    verify_request_overruns (login client) (login-ReadsStrings client) user (49 ∷ []) (zeros 5000)
      (7 ∷ []) (omega arith, omega arith) (omega arith, omega arith)
      (omega (arith, length-zeros 5000), omega (arith, length-zeros 5000))
      (omega arith, omega arith)
      (omega
        (arith, length-zeros 5000, length-signing_data (1 ∷ 2 ∷ []) user (49 ∷ []) (zeros 5000)))
