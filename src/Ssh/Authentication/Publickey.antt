-- ===== src/Ssh/Authentication/Publickey.antt =====
-- doPublickeyAuth of ssh2_auths.c. Its buffer for the signed data, priv_data, holds MAX_BLOB_SIZE + 8
-- bytes and the copy into it has no check: data that is longer ends the model's run as `overrun`.
pub mod Requests
pub mod Signed
pub mod Reports
use bosh_dotnet.Prelude.{
  ℕ, ◌+◌, ◌-◌, leb, Bool, false, List, [], ◌∷◌, ◌++◌, Option, none, some, length, take, ◌==◌,
  if◌then◌else◌,
}
use bosh_dotnet.Ssh.Status.{Status, ok, ok_special, signature, overrun, is_error}
use bosh_dotnet.Ssh.Session.{max_text_size}
use bosh_dotnet.Ssh.Channel.Find.{bytes_eq}
use bosh_dotnet.Ssh.Channel.Response.{uint32_bytes}
use bosh_dotnet.Ssh.Authentication.State.{
  AuthSession, AuthEnvironment, PublicKey, rsa, dsa, UserAuthType, userauth_noop, userauth_error,
  userauth_callercheck,
}
use bosh_dotnet.Ssh.Authentication.Responses.{string32, send_packet}
use bosh_dotnet.Ssh.Authentication.Request.{
  Result, stop, done, ◌>>=◌, ◌>>◌, UserAuthRequest, read_text, read_behind_flag,
}

-- MAX_BLOB_SIZE
abbrev pub max_blob_size : ℕ
max_blob_size = 5000

-- CRYPT_MAX_PKCSIZE
abbrev pub max_pkc_size : ℕ
max_pkc_size = 512

-- SSH2_MSG_USERAUTH_REQUEST and SSH_MSG_USERAUTH_PK_OK
abbrev pub msg_userauth_request : ℕ
msg_userauth_request = 50

abbrev pub msg_userauth_pk_ok : ℕ
msg_userauth_pk_ok = 60

abbrev pub rsa_name : List ℕ
rsa_name = 115 ∷ 115 ∷ 104 ∷ 45 ∷ 114 ∷ 115 ∷ 97 ∷ []

abbrev pub dsa_name : List ℕ
dsa_name = 115 ∷ 115 ∷ 104 ∷ 45 ∷ 100 ∷ 115 ∷ 115 ∷ []

-- What the verdict of processUserAuth and doPublickeyAuth consists of.
abbrev pub Verdict : Type 0
Verdict = AuthSession × UserAuthType × Status

abbrev pub rejected : AuthSession → Status → Verdict
rejected s st = (s, userauth_error, st)

-- A call whose error status ends the function.
abbrev pub guard : Status → Result {0} Unit
guard st = if is_error st then stop st else done tt

-- What is copied to priv_data, the bytes that the signature covers: the session ID, the packet type,
-- and the packet up to the signature.
unfoldable pub signed_data : List ℕ → (packet sign : List ℕ) → List ℕ
signed_data session_id packet sign =
    string32 session_id ++ msg_userauth_request ∷ take (length packet - length sign - 4) packet

-- BYTE priv_data[ MAX_BLOB_SIZE + 8 ]
abbrev pub priv_data_size : ℕ
priv_data_size = max_blob_size + 8

-- The copy to priv_data.
abbrev pub copy_status : List ℕ → Status
copy_status covered = if leb (length covered) priv_data_size then ok else overrun

-- The value of sgetc is 0. An error code is not.
unfoldable pub is_probe : Option ℕ → Bool
is_probe none = false
is_probe (some step) = step == 0

module _ (e : AuthEnvironment) where
  -- A string of the key, which may be empty.
  abbrev pub read_part : ℕ → List ℕ → Result (List ℕ × List ℕ)
  read_part limit stream =
      let (st, part, rest) = e.read_string32 limit stream in
      if is_error st then stop st else done (part, rest)

  read_rsa : List ℕ → Result PublicKey
  read_rsa stream = do
    (exponent, rest) ← read_part max_pkc_size stream
    (modulus, end) ← read_part max_pkc_size rest
    done (rsa exponent modulus)

  read_dsa : List ℕ → Result PublicKey
  read_dsa stream = do
    (p, after_p) ← read_part max_pkc_size stream
    (q, after_q) ← read_part max_pkc_size after_p
    (g, after_g) ← read_part max_pkc_size after_q
    (y, end) ← read_part max_pkc_size after_g
    done (dsa p q g y)

  read_numbers : (algo stream : List ℕ) → Result PublicKey
  unfolding read_rsa read_dsa
  read_numbers algo stream =
      if bytes_eq algo rsa_name
      then read_rsa stream
      else if bytes_eq algo dsa_name
      then read_dsa stream
      else stop signature

  unfoldable pub read_key : List ℕ → Result PublicKey
  unfolding read_numbers
  read_key bytes = do
    guard (e.s_mem_connect bytes)
    (algo, stream) ← read_part max_text_size bytes
    read_numbers algo stream

  -- The contexts of the key and the hash, the copy of the data, its hash, the check of the signature,
  -- the end of the contexts.
  unfoldable pub check_hashed : PublicKey → (hashed sign : List ℕ) → Result {0} Unit
  check_hashed key hashed sign = do
    guard (e.load_key key)
    guard e.create_hash_context
    guard (copy_status hashed)
    guard (e.hash_data hashed)
    guard (e.check_signature key hashed (string32 sign))
    guard e.destroy_hash_context
    guard e.destroy_check_context

  unfoldable pub check_key : PublicKey → (public_key hashed sign : List ℕ) → Result (List ℕ)
  unfolding check_hashed
  check_key key public_key hashed sign = do check_hashed key hashed sign; done public_key

  -- The three strings behind the flag of a signed request, then the check. The result is the key.
  unfoldable pub verify_request : (packet : List ℕ) → UserAuthRequest → Result (List ℕ)
  unfolding read_key check_key
  verify_request packet request = do
    (algorithm, after_algorithm) ← read_behind_flag e request.step max_text_size request.rest
    (public_key, after_key) ← read_text e max_blob_size after_algorithm
    (sign, end) ← read_text e max_blob_size after_key
    key ← read_key public_key
    check_key key public_key (signed_data e.session_id packet sign) sign

  -- A request with flag 0 asks whether a key would do. The answer is yes for every key, and the
  -- status of sending it is dropped.
  unfoldable pub send_pk_ok : AuthSession → (algorithm blob : List ℕ) → Verdict
  send_pk_ok s algorithm blob =
      let opened = e.open_packet_stream_ssh msg_userauth_pk_ok in
      let named = e.write_payload (string32 algorithm) in
      let payload = string32 algorithm ++ string32 blob in
      let written = e.write_payload payload in
      if is_error opened
      then rejected s opened
      else if is_error named
      then rejected s named
      else if is_error written
      then rejected s written
      else ((send_packet e s (msg_userauth_pk_ok ∷ payload)).0, userauth_noop, ok_special)

  pub read_probe : List ℕ → Result (List ℕ × List ℕ)
  read_probe stream = do
    (algorithm, after_algorithm) ← read_text e max_text_size stream
    (blob, end) ← read_text e max_blob_size after_algorithm
    done (algorithm, blob)

  unfoldable pub answer_read : AuthSession → Result (List ℕ × List ℕ) → Verdict
  unfolding send_pk_ok
  answer_read s (stop st) = rejected s st
  answer_read s (done (algorithm, blob)) = send_pk_ok s algorithm blob

  unfoldable pub answer_probe : AuthSession → List ℕ → Verdict
  unfolding answer_read read_probe
  answer_probe s stream = answer_read s (read_probe stream)

  -- The verified key is recorded for the caller.
  unfoldable pub record_publickey : AuthSession → List ℕ → Verdict
  record_publickey s public_key =
      let (st, encoded) = e.base64encode public_key in
      let t = record s { publickey = encoded } in
      if is_error st then rejected t st else (t, userauth_callercheck, ok_special)

  unfoldable pub record_verified : AuthSession → Result (List ℕ) → Verdict
  unfolding record_publickey
  record_verified s (stop st) = rejected s st
  record_verified s (done public_key) = record_publickey s public_key

  unfoldable pub accept_signed : AuthSession → List ℕ → UserAuthRequest → Verdict
  unfolding verify_request record_verified
  accept_signed s packet request = record_verified s (verify_request packet request)

  unfoldable pub do_publickey_auth : AuthSession → List ℕ → UserAuthRequest → Verdict
  unfolding answer_probe accept_signed is_probe
  do_publickey_auth s packet request =
      if is_probe request.step then answer_probe s request.rest else accept_signed s packet request
