-- ===== src/Ssh/Tests/Authentication.antt =====
-- A client given by its packets, with readers, attribute lists and keys that are as documented.
use bosh_dotnet.Prelude.{
  ℕ, zero, suc, ◌+◌, ◌*◌, ◌/◌, ◌%◌, ◌^◌, ◌≤◌, ◌<◌, ◌≡◌, refl, sym, ap, Bool, true, false, ◌&&◌,
  List, [], ◌∷◌, ◌++◌, Option, none, some, length, length-append, append-nil, ◌∙◌, take,
  take-append, drop, drop-append, get_elem?, leb, ◌==◌, le→leb, if◌then◌else◌, arith,
}
use bosh_dotnet.Ssh.Status.{Status, ok, failed}
use bosh_dotnet.Ssh.Channel.Find.{bytes_eq}
use bosh_dotnet.Ssh.Channel.Response.{uint32_bytes}
use bosh_dotnet.Ssh.Authentication.State.{
  AuthEnvironment, AuthDocumented, AuthAttribute, SessionInfo, user_name, password, other_info,
  with_name, user_names,
}
use bosh_dotnet.Ssh.Authentication.Responses.{string32}
use bosh_dotnet.Ssh.Authentication.Publickey.Requests.{ReadsStrings}

abbrev cut_string : (limit n : ℕ) → List ℕ → Status × List ℕ × List ℕ
cut_string limit n rest =
    if leb n limit && leb n (length rest)
    then (ok, take n rest, drop n rest)
    else (failed 3, [], [])

abbrev plain_string : ℕ → List ℕ → Status × List ℕ × List ℕ
plain_string limit (a ∷ b ∷ c ∷ d ∷ rest) =
    cut_string limit (a * 2 ^ 24 + b * 2 ^ 16 + c * 2 ^ 8 + d) rest
plain_string limit _ = (failed 3, [], [])

abbrev same_info : SessionInfo → SessionInfo → Bool
same_info user_name user_name = true
same_info password password = true
same_info (other_info a) (other_info b) = a == b
same_info _ _ = false

abbrev pick : Bool → Option ℕ → Option ℕ
pick true later = some 0
pick false none = none
pick false (some i) = some (suc i)

abbrev find_from : List AuthAttribute → SessionInfo → List ℕ → Option ℕ
find_from [] id value = none
find_from (a ∷ l) id value =
    let rest = find_from l id value in
    pick (same_info a.attribute_id id && bytes_eq a.value value) rest

abbrev with_item : List AuthAttribute → SessionInfo → List ℕ → Status × List AuthAttribute
with_item l id value = (ok, l ++ record { attribute_id = id; value = value } ∷ [])

-- A hash that keeps the name, keys that always load, and a signature that is the key's first number.
abbrev pub login : (ℕ → List ℕ) → AuthEnvironment
login client = record {
  read_hs_packet_ssh2 = λ n least. (ok, client n);
  read_string32 = plain_string;
  sgetc = λ stream. elim stream [ [] ↦ (none, []) | x ∷ rest ↦ (some x, rest) ];
  open_packet_stream_ssh = λ type. ok;
  write_payload = λ payload. ok;
  send_packet_ssh2 = λ n packet. ok;
  sha1 = λ name. name;
  compare_data_const_time = bytes_eq;
  find_session_info_ex = find_from;
  add_session_info_s = with_item;
  update_session_info = with_item;
  s_mem_connect = λ bytes. ok;
  load_key = λ key. ok;
  create_hash_context = ok;
  hash_data = λ hashed. ok;
  check_signature = λ key hashed sign. if bytes_eq sign (string32 (7 ∷ [])) then ok else failed 33;
  destroy_hash_context = ok;
  destroy_check_context = ok;
  base64encode = λ key. (ok, some key);
  session_id = 1 ∷ 2 ∷ [];
}

bytes_eq_refl : (a : List ℕ) → bytes_eq a a ≡ true
bytes_eq_refl [] = refl
bytes_eq_refl (x ∷ a) = ground (arith, bytes_eq_refl a)

bytes_eq_sound : (a b : List ℕ) → bytes_eq a b ≡ true → a ≡ b
bytes_eq_sound [] [] h = refl
bytes_eq_sound [] (y ∷ b) h = cc
bytes_eq_sound (x ∷ a) [] h = cc
bytes_eq_sound (x ∷ a) (y ∷ b) h =
    let e : x ≡ y = ground arith in
    let r : bytes_eq a b ≡ true = ground arith in rw (e, bytes_eq_sound a b r) refl

same_info_sound : (a b : SessionInfo) → same_info a b ≡ true → a ≡ b
same_info_sound user_name user_name h = refl
same_info_sound password password h = refl
same_info_sound (other_info a) (other_info b) h = let e : a ≡ b = ground arith in ap other_info e
same_info_sound user_name password h = cc
same_info_sound user_name (other_info b) h = cc
same_info_sound password user_name h = cc
same_info_sound password (other_info b) h = cc
same_info_sound (other_info a) user_name h = cc
same_info_sound (other_info a) password h = cc

with_name-append :
    (id : SessionInfo) (name : List ℕ) (l m : List (List ℕ))
    → with_name id name l ++ m ≡ with_name id name (l ++ m)
with_name-append user_name name l m = refl
with_name-append password name l m = refl
with_name-append (other_info n) name l m = refl

user_names-append : (l m : List AuthAttribute) → user_names (l ++ m) ≡ user_names l ++ user_names m
user_names-append [] m = refl
user_names-append (a ∷ l) m =
    rw (user_names-append l m) (sym (with_name-append a.attribute_id a.value _ _))

item_eq :
    (a : AuthAttribute) (id : SessionInfo) (value : List ℕ)
    → (same_info a.attribute_id id && bytes_eq a.value value) ≡ true
    → a ≡ record { attribute_id = id; value = value }
item_eq a id value t =
    let same : same_info a.attribute_id id ≡ true = ground arith in
    let equal : bytes_eq a.value value ≡ true = ground arith in
    rw (← same_info_sound a.attribute_id id same, ← bytes_eq_sound a.value value equal) refl

pick_sound :
    (a item : AuthAttribute) (l : List AuthAttribute) (b : Bool) (later : Option ℕ)
    → (b ≡ true → a ≡ item)
    → ((j : ℕ) → later ≡ some j → get_elem? l j ≡ some item)
    → (i : ℕ) → pick b later ≡ some i
    → get_elem? (a ∷ l) i ≡ some item
pick_sound a item l true later f g zero h = ap some (f refl)
pick_sound a item l true later f g (suc i) h = cc
pick_sound a item l false none f g i h = cc
pick_sound a item l false (some j) f g zero h = cc
pick_sound a item l false (some j) f g (suc i) h = g i cc

find_from_sound :
    (l : List AuthAttribute) (id : SessionInfo) (value : List ℕ) (i : ℕ)
    → find_from l id value ≡ some i
    → get_elem? l i ≡ some (record { attribute_id = id; value = value })
find_from_sound [] id value i h = cc
find_from_sound (a ∷ l) id value i h =
    pick_sound a (record { attribute_id = id; value = value }) l
      (same_info a.attribute_id id && bytes_eq a.value value) (find_from l id value)
      (λ t. item_eq a id value t) (λ j. find_from_sound l id value j) i h

pub login-AuthDocumented : (client : ℕ → List ℕ) → AuthDocumented (login client)
login-AuthDocumented client = record {
  compares = bytes_eq_sound;
  compares_same = bytes_eq_refl;
  finds = find_from_sound;
  adds_user = λ l name h. user_names-append l _;
  refuses_user = λ l name h. absurd (h refl);
  updates_password = λ l value. user_names-append l _ ∙ append-nil _;
}

word_lem :
    (n : ℕ)
    → n < 2 ^ 32
    → n / 2 ^ 24 % 256 * 2 ^ 24 + n / 2 ^ 16 % 256 * 2 ^ 16 + n / 2 ^ 8 % 256 * 2 ^ 8 + n % 256 ≡ n
word_lem n h = omega arith

cut_string-append :
    (limit : ℕ) (text rest : List ℕ)
    → length text ≤ limit
    → cut_string limit (length text) (text ++ rest) ≡ (ok, text, rest)
cut_string-append limit text rest h =
    let a : leb (length text) limit ≡ true = le→leb (length text) limit h in
    let b : leb (length text) (length (text ++ rest)) ≡ true =
      le→leb (length text) (length (text ++ rest)) (omega (arith, length-append text rest)) in
    rw (a, b, take-append text rest, drop-append text rest) refl

plain_string-string32 :
    (limit : ℕ) (text rest : List ℕ)
    → length text ≤ limit
    → limit < 2 ^ 32
    → plain_string limit (string32 text ++ rest) ≡ (ok, text, rest)
unfolding uint32_bytes
plain_string-string32 limit text rest h small =
    rw (word_lem (length text) (omega arith)) (cut_string-append limit text rest h)

pub login-ReadsStrings : (client : ℕ → List ℕ) → ReadsStrings (login client)
login-ReadsStrings client = record { strings = plain_string-string32; bytes = λ b rest. refl }
