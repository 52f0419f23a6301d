-- ===== src/Ssh/Authentication/Request.antt =====
-- The parts of SSH2_MSG_USERAUTH_REQUEST as processUserAuth of ssh2_auths.c reads them.
use bosh_dotnet.Prelude.{
  ℕ, not, ◌||◌, List, [], ◌∷◌, Option, none, some, length, ltb, ◌==◌, ◌≡◌, refl, ◌⊎◌, inl, inr,
  if◌then◌else◌,
}
use bosh_dotnet.Ssh.Status.{Status, bad_data, is_error}
use bosh_dotnet.Ssh.Session.{max_text_size}
use bosh_dotnet.Ssh.Channel.Find.{bytes_eq}
use bosh_dotnet.Ssh.Authentication.State.{
  AuthEnvironment, MethodType, method_none, method_query, method_password, method_publickey,
}

-- A computation that an error status ends.
pub data Result {ℓ} (A : Type ℓ) : Type ℓ where
  stop : Status → Result A
  done : A → Result A

infixl 1 ◌>>=◌
abbrev pub ◌>>=◌ {ℓ κ} : {A : Type ℓ} {B : Type κ} → Result A → (A → Result B) → Result B
stop st >>= f = stop st
done a >>= f = f a

pub >>=-done {ℓ κ} :
    {A : Type ℓ} {B : Type κ} (r : Result A) (f : A → Result B) (b : B)
    → (r >>= f) ≡ done b
    → (a : A) × (r ≡ done a) × (f a ≡ done b)
>>=-done (stop st) f b h = cc
>>=-done (done a) f b h = (a, refl, h)

pub >>=_of_done {ℓ κ} :
    {A : Type ℓ} {B : Type κ} {r : Result A} {a : A} {b : Result B} (f : A → Result B)
    → r ≡ done a
    → f a ≡ b
    → (r >>= f) ≡ b
>>=_of_done f h q = rw h q

pub >>=_same {ℓ κ} :
    {A : Type ℓ} {B : Type κ} (r : Result A) (f g : A → Result B)
    → ((a : A) → f a ≡ g a)
    → (r >>= f) ≡ (r >>= g)
>>=_same (stop st) f g h = refl
>>=_same (done a) f g h = h a

infixl 1 ◌>>◌
abbrev pub ◌>>◌ {ℓ κ} : {A : Type ℓ} {B : Type κ} → Result A → Result B → Result B
stop st >> r = stop st
done a >> r = r

pub Result-cases {ℓ} :
    {A : Type ℓ} (r : Result A) → ((st : Status) × (r ≡ stop st)) ⊎ ((a : A) × (r ≡ done a))
Result-cases (stop st) = inl (st, refl)
Result-cases (done a) = inr (a, refl)

-- "ssh-connection"
abbrev pub connection_service : List ℕ
connection_service =
    115 ∷ 115 ∷ 104 ∷ 45 ∷ 99 ∷ 111 ∷ 110 ∷ 110 ∷ 101 ∷ 99 ∷ 116 ∷ 105 ∷ 111 ∷ 110 ∷ []

abbrev pub none_name : List ℕ
none_name = 110 ∷ 111 ∷ 110 ∷ 101 ∷ []

abbrev pub password_name : List ℕ
password_name = 112 ∷ 97 ∷ 115 ∷ 115 ∷ 119 ∷ 111 ∷ 114 ∷ 100 ∷ []

abbrev pub publickey_name : List ℕ
publickey_name = 112 ∷ 117 ∷ 98 ∷ 108 ∷ 105 ∷ 99 ∷ 107 ∷ 101 ∷ 121 ∷ []

-- KE_EMPTY_PASSWORD
abbrev pub empty_password : List ℕ
empty_password =
    104 ∷ 97 ∷ 99 ∷ 107 ∷ 32 ∷ 122 ∷ 97 ∷ 32 ∷ 110 ∷ 113 ∷ 107 ∷ 111 ∷ 106 ∷ 32 ∷ 101 ∷ 32 ∷ 110
    ∷ 97 ∷ 112 ∷ 105 ∷ 115 ∷ 97 ∷ 108 ∷ 32 ∷ 112 ∷ 114 ∷ 97 ∷ 122 ∷ 110 ∷ 97 ∷ 32 ∷ 112 ∷ 97 ∷ 114
    ∷ 111 ∷ 108 ∷ 97 ∷ []

pub record MethodInfo : Type 0 where
  pub name : List ℕ
  pub type : MethodType

abbrev method_info_tbl : List MethodInfo
method_info_tbl =
    record { name = none_name; type = method_query }
    ∷ record { name = password_name; type = method_password }
    ∷ record { name = publickey_name; type = method_publickey }
    ∷ record { name = []; type = method_none }
    ∷ record { name = []; type = method_none }
    ∷ []

-- The loop over the table, which the entries of type METHOD_NONE end.
find_method : List MethodInfo → List ℕ → Option MethodType
find_method [] name = none
find_method (m ∷ l) name =
    let rest = find_method l name in
    elim m.type [ method_none ↦ none | _ ↦ if bytes_eq m.name name then some m.type else rest ]

unfoldable pub method_of : List ℕ → Option MethodType
unfolding find_method
method_of = find_method method_info_tbl

-- The parts up to the boolean flag, which is `none` when it cannot be read, and the bytes behind it.
pub record UserAuthRequest : Type 0 where
  pub name : List ℕ
  pub method : MethodType
  pub step : Option ℕ
  pub rest : List ℕ

module _ (e : AuthEnvironment) where
  -- A string that must have bytes, up to a limit.
  unfoldable pub read_text : ℕ → List ℕ → Result (List ℕ × List ℕ)
  read_text limit stream =
      let (st, text, rest) = e.read_string32 limit stream in
      if is_error st || length text == 0 || ltb limit (length text)
      then stop bad_data
      else done (text, rest)

  unfoldable pub read_service : List ℕ → Result (List ℕ)
  read_service stream =
      let (st, service, rest) = e.read_string32 max_text_size stream in
      if is_error st || not (bytes_eq service connection_service) then stop bad_data else done rest

  unfoldable pub known_method : List ℕ → Result MethodType
  unfolding method_of
  known_method name = elim (method_of name) [ none ↦ stop bad_data | some m ↦ done m ]

  -- From the method name on.
  unfoldable pub read_method : (name stream : List ℕ) → Result UserAuthRequest
  unfolding known_method
  read_method name stream = do
    (method_name, rest) ← read_text max_text_size stream
    method ← known_method method_name
    let (step, behind) = e.sgetc rest
    done (record { name = name; method = method; step = step; rest = behind })

  unfoldable pub read_request : List ℕ → Result UserAuthRequest
  unfolding read_method
  read_request packet = do
    (name, rest) ← read_text max_text_size packet
    behind ← read_service rest
    read_method name behind

  -- A string behind the flag. The error of a flag that cannot be read stays in the stream.
  unfoldable pub read_behind_flag : Option ℕ → ℕ → List ℕ → Result (List ℕ × List ℕ)
  read_behind_flag none limit stream = stop bad_data
  read_behind_flag (some step) limit stream = read_text limit stream

  -- The password, with KE_EMPTY_PASSWORD in the place of an empty one.
  unfoldable pub read_password : UserAuthRequest → Result (List ℕ)
  read_password request =
      let (st, text, rest) = e.read_string32 max_text_size request.rest in
      let given = if length text == 0 then empty_password else text in
      elim request.step [
        | none ↦ stop bad_data
        | some step ↦
            if is_error st || length given == 0 || ltb max_text_size (length given)
            then stop bad_data
            else done given
      ]
