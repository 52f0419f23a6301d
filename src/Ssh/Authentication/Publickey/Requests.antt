-- ===== src/Ssh/Authentication/Publickey/Requests.antt =====
-- The parts of a signed request, as processUserAuth reads them from the bytes of a client.
use bosh_dotnet.Prelude.{
  ℕ, ◌^◌, ◌≤◌, ◌<◌, ◌≡◌, refl, false, List, ◌∷◌, ◌++◌, Option, some, length, ltb, ◌==◌, arith,
}
use bosh_dotnet.Ssh.Status.{ok}
use bosh_dotnet.Ssh.Session.{max_text_size}
use bosh_dotnet.Ssh.Authentication.State.{AuthEnvironment, MethodType, method_publickey}
use bosh_dotnet.Ssh.Authentication.Responses.{string32}
use bosh_dotnet.Ssh.Authentication.Request.{
  done, ◌>>=◌, >>=_of_done, UserAuthRequest, connection_service, publickey_name, read_text,
  read_service, known_method, method_of, read_method, read_request,
}

-- What the readers are documented to do on bytes that were written as strings.
pub record ReadsStrings (e : AuthEnvironment) : Type 0 where
  pub strings :
      (limit : ℕ) (text rest : List ℕ)
      → length text ≤ limit
      → limit < 2 ^ 32
      → e.read_string32 limit (string32 text ++ rest) ≡ (ok, text, rest)
  pub bytes : (b : ℕ) (rest : List ℕ) → e.sgetc (b ∷ rest) ≡ (some b, rest)

-- A text of at least one byte and at most `limit` bytes.
abbrev pub Fits : ℕ → List ℕ → Type 0
Fits limit text = (0 < length text) × (length text ≤ limit)

abbrev request_of : List ℕ → MethodType → Option ℕ × List ℕ → UserAuthRequest
request_of name method (step, rest) = record {
  name = name;
  method = method;
  step = step;
  rest = rest;
}

module _ (e : AuthEnvironment) (reads : ReadsStrings e) where
  pub read_text-string32 :
      (limit : ℕ) (text rest : List ℕ)
      → Fits limit text
      → limit < 2 ^ 32
      → read_text e limit (string32 text ++ rest) ≡ done (text, rest)
  unfolding read_text
  read_text-string32 limit text rest (some_bytes, fits) small =
      let nonempty : (length text == 0) ≡ false = ground arith in
      let short : ltb limit (length text) ≡ false = ground arith in
      rw (reads.strings limit text rest fits small, nonempty, short) refl

  read_service-string32 :
      (rest : List ℕ) → read_service e (string32 connection_service ++ rest) ≡ done rest
  unfolding read_service
  read_service-string32 rest =
      rw (reads.strings max_text_size connection_service rest (omega arith) (omega arith)) refl

  -- The parts of a signed request up to its flag.
  pub read_request_signed :
      (name behind : List ℕ)
      → Fits max_text_size name
      → read_request e (
          string32 name
          ++ (string32 connection_service ++ (string32 publickey_name ++ (1 ∷ behind))))
        ≡ done (record { name = name; method = method_publickey; step = some 1; rest = behind })
  unfolding read_request read_method known_method method_of
  read_request_signed name behind fits =
      let flagged = 1 ∷ behind in
      let after_service = string32 publickey_name ++ flagged in
      let after_name = string32 connection_service ++ after_service in
      let name_read = read_text-string32 max_text_size name after_name fits (omega arith) in
      let service_read = read_service-string32 after_service in
      let method_read =
        read_text-string32 max_text_size publickey_name flagged (omega arith, omega arith)
          (omega arith) in
      let flag_read : e.sgetc flagged ≡ (some 1, behind) = reads.bytes 1 behind in
      >>=_of_done (λ t. read_service e t.1 >>= λ rest. read_method e t.0 rest) name_read
        (>>=_of_done (λ rest. read_method e name rest) service_read
          (>>=_of_done (λ t. known_method e t.0 >>= λ m. done (request_of name m (e.sgetc t.1)))
            method_read (rw flag_read refl)))
