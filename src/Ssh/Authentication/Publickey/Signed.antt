-- ===== src/Ssh/Authentication/Publickey/Signed.antt =====
-- The data that a signed request is checked against.
use bosh_dotnet.Prelude.{
  ℕ, ◌+◌, ◌-◌, ◌≤◌, ◌<◌, ◌≡◌, refl, false, List, [], ◌∷◌, ◌++◌, length, le→leb, leb, ◌∙◌,
  length-append, take, take-append, append_assoc, append-nil, arith,
}
use bosh_dotnet.Ssh.Status.{Status, ok, overrun}
use bosh_dotnet.Ssh.Session.{max_text_size}
use bosh_dotnet.Ssh.Channel.Response.{uint32_bytes}
use bosh_dotnet.Ssh.Authentication.State.{AuthEnvironment, PublicKey}
use bosh_dotnet.Ssh.Authentication.Responses.{string32}
use bosh_dotnet.Ssh.Authentication.Request.{
  Result, stop, done, ◌>>=◌, ◌>>◌, >>=_of_done, >>=_same, connection_service, publickey_name,
  read_text, read_request, read_behind_flag,
}
use bosh_dotnet.Ssh.Authentication.Publickey.{
  max_blob_size, msg_userauth_request, signed_data, read_key, check_key, check_hashed,
  verify_request, priv_data_size, copy_status, guard,
}
use bosh_dotnet.Ssh.Authentication.Publickey.Requests.{
  ReadsStrings, Fits, read_text-string32, read_request_signed,
}

-- The request up to the signature, as RFC 4252 writes it.
abbrev pub unsigned_request : (name algorithm key : List ℕ) → List ℕ
unsigned_request name algorithm key =
    string32 name
    ++ (string32 connection_service
        ++ (string32 publickey_name ++ (1 ∷ (string32 algorithm ++ string32 key))))

abbrev pub signed_request : (name algorithm key sign : List ℕ) → List ℕ
signed_request name algorithm key sign =
    string32 name
    ++ (string32 connection_service
        ++ (string32 publickey_name
            ++ (1 ∷ (string32 algorithm ++ (string32 key ++ (string32 sign ++ []))))))

-- The data under the signature, as RFC 4252 defines it.
abbrev pub signing_data : (session_id name algorithm key : List ℕ) → List ℕ
signing_data session_id name algorithm key =
    string32 session_id ++ msg_userauth_request ∷ unsigned_request name algorithm key

signed_request_split :
    (name algorithm key sign : List ℕ)
    → signed_request name algorithm key sign ≡ unsigned_request name algorithm key ++ string32 sign
signed_request_split name algorithm key sign = simp (append_assoc, append-nil)

length-string32 : (text : List ℕ) → length (string32 text) ≡ 4 + length text
unfolding uint32_bytes
length-string32 text = omega arith

-- 49 bytes and the session ID, the name, the name of the algorithm and the key.
pub length-signing_data :
    (session_id name algorithm key : List ℕ)
    → length (signing_data session_id name algorithm key)
      ≡ 49 + length session_id + length name + length algorithm + length key
length-signing_data session_id name algorithm key =
    let tail = string32 algorithm ++ string32 key in
    let behind_service = string32 publickey_name ++ (1 ∷ tail) in
    let behind_name = string32 connection_service ++ behind_service in
    omega (
      arith,
      length-append (string32 session_id) (msg_userauth_request ∷ (string32 name ++ behind_name)),
      length-append (string32 name) behind_name,
      length-append (string32 connection_service) behind_service,
      length-append (string32 publickey_name) (1 ∷ tail),
      length-append (string32 algorithm) (string32 key),
      length-string32 session_id,
      length-string32 name,
      length-string32 connection_service,
      length-string32 publickey_name,
      length-string32 algorithm,
      length-string32 key,
    )

-- A packet without the string at its end.
take_front :
    (front sign : List ℕ)
    → take (length (front ++ string32 sign) - length sign - 4) (front ++ string32 sign) ≡ front
take_front front sign =
    let n : length (front ++ string32 sign) - length sign - 4 ≡ length front =
      omega (arith, length-append front (string32 sign), length-string32 sign) in
    rw n (take-append front (string32 sign))

signed_data_lem :
    (session_id name algorithm key sign : List ℕ)
    → signed_data session_id (signed_request name algorithm key sign) sign
      ≡ signing_data session_id name algorithm key
unfolding signed_data
signed_data_lem session_id name algorithm key sign =
    rw
      (
        signed_request_split name algorithm key sign,
        take_front (unsigned_request name algorithm key) sign,
      )
      refl

-- The key, the hash of the data, and the signature, with no bound on the data.
abbrev pub check_signed :
    AuthEnvironment → PublicKey → (public_key covered sign : List ℕ) → Result (List ℕ)
check_signed e key public_key covered sign = do
  do
    guard (e.load_key key)
    guard e.create_hash_context
    guard (e.hash_data covered)
    guard (e.check_signature key covered (string32 sign))
    guard e.destroy_hash_context
    guard e.destroy_check_context
  done public_key

abbrev stopped : Status → Result {0} Unit
stopped st = stop st

stops :
    {A : Type 0} (r q : Result {0} Unit) (a : A) (st : Status)
    → ((r >> (q >> stopped st)) >> done a) ≡ (r >> q >> stop st)
stops (stop x) q a st = refl
stops (done u) (stop x) a st = refl
stops (done u) (done v) a st = refl

module _ (e : AuthEnvironment) (reads : ReadsStrings e) where
  verify_request_checks :
      (name algorithm key sign : List ℕ)
      → Fits max_text_size name
      → Fits max_text_size algorithm
      → Fits max_blob_size key
      → Fits max_blob_size sign
      → let packet = signed_request name algorithm key sign in
        (read_request e packet >>= verify_request e packet) ≡ (
          read_key e key >>= λ k.
          check_key e k key (signing_data e.session_id name algorithm key) sign)
  unfolding verify_request read_behind_flag
  verify_request_checks name algorithm key sign fit_name fit_algorithm fit_key fit_sign =
      let behind_key = string32 sign ++ [] in
      let behind_algorithm = string32 key ++ behind_key in
      let behind = string32 algorithm ++ behind_algorithm in
      let packet = signed_request name algorithm key sign in
      >>=_of_done (verify_request e packet) (read_request_signed e reads name behind fit_name) (
        >>=_of_done
          (λ t. read_text e max_blob_size t.1 >>= λ u. read_text e max_blob_size u.1 >>= λ v.
            read_key e u.0 >>= λ k. check_key e k u.0 (signed_data e.session_id packet v.0) v.0)
          (read_text-string32 e reads max_text_size algorithm behind_algorithm fit_algorithm
            (omega arith))
          (>>=_of_done
            (λ u. read_text e max_blob_size u.1 >>= λ v.
              read_key e u.0 >>= λ k. check_key e k u.0 (signed_data e.session_id packet v.0) v.0)
            (read_text-string32 e reads max_blob_size key behind_key fit_key (omega arith))
            (>>=_of_done
              (λ v.
                read_key e key >>= λ k. check_key e k key (signed_data e.session_id packet v.0) v.0)
              (read_text-string32 e reads max_blob_size sign [] fit_sign (omega arith))
              (rw (signed_data_lem e.session_id name algorithm key sign) refl))))

  -- A signed request as RFC 4252 writes it, its user name and algorithm name of 1 to 64 bytes, its
  -- key and signature of 1 to 5000, where the data that RFC 4252 says is signed takes at most the
  -- 5008 bytes of priv_data: `doPublickeyAuth` loads the key of the request, and hashes and checks
  -- the signature of the request against exactly that data.
  pub verify_request_signed :
      (name algorithm key sign : List ℕ)
      → Fits max_text_size name
      → Fits max_text_size algorithm
      → Fits max_blob_size key
      → Fits max_blob_size sign
      → length (signing_data e.session_id name algorithm key) ≤ priv_data_size
      → let packet = signed_request name algorithm key sign in
        (read_request e packet >>= verify_request e packet) ≡ (
          read_key e key >>= λ k.
          check_signed e k key (signing_data e.session_id name algorithm key) sign)
  unfolding check_key check_hashed
  verify_request_signed name algorithm key sign fit_name fit_algorithm fit_key fit_sign room =
      let covered = signing_data e.session_id name algorithm key in
      let copied : copy_status covered ≡ ok =
        rw (le→leb (length covered) priv_data_size room) refl in
      verify_request_checks name algorithm key sign fit_name fit_algorithm fit_key fit_sign
      ∙ >>=_same (read_key e key) (λ k. check_key e k key covered sign)
          (λ k. check_signed e k key covered sign) (λ k. rw copied refl)

  -- A signed request as RFC 4252 writes it, its user name and algorithm name of 1 to 64 bytes, its
  -- key and signature of 1 to 5000, where the data that RFC 4252 says is signed takes more than the
  -- 5008 bytes of priv_data: if the key can be read and loaded and the context of the hash can be
  -- made, the copy of the data runs past the end of priv_data, before the signature is looked at;
  -- else the request ends with the first of their errors.
  pub verify_request_overruns :
      (name algorithm key sign : List ℕ)
      → Fits max_text_size name
      → Fits max_text_size algorithm
      → Fits max_blob_size key
      → Fits max_blob_size sign
      → priv_data_size < length (signing_data e.session_id name algorithm key)
      → let packet = signed_request name algorithm key sign in
        (read_request e packet >>= verify_request e packet) ≡ (
          read_key e key >>= λ k.
          guard (e.load_key k) >> guard e.create_hash_context >> stop overrun)
  unfolding check_key check_hashed
  verify_request_overruns name algorithm key sign fit_name fit_algorithm fit_key fit_sign long =
      let covered = signing_data e.session_id name algorithm key in
      let past : leb (length covered) priv_data_size ≡ false = ground arith in
      let copied : copy_status covered ≡ overrun = rw past refl in
      verify_request_checks name algorithm key sign fit_name fit_algorithm fit_key fit_sign
      ∙ >>=_same (read_key e key) (λ k. check_key e k key covered sign)
          (λ k. guard (e.load_key k) >> guard e.create_hash_context >> stop overrun)
          (λ k. rw copied (stops (guard (e.load_key k)) (guard e.create_hash_context) _ overrun))
