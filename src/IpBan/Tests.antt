-- ===== src/IpBan/Tests.antt =====
-- A directory of files as a list of their paths, and the counts of an address in it.
use bosh_dotnet.Prelude.{
  ℕ, ◌≡◌, ◌≢◌, refl, ap, ◌∙◌, Bool, true, false, ◌||◌, List, [], ◌∷◌, ◌++◌, drop, ◌==◌,
  if◌then◌else◌, inl, inr, Bool-cases, arith,
}
use bosh_dotnet.Prelude.Items.{All, All-map}
use bosh_dotnet.Prelude.Decimal.{IsDigit}
use bosh_dotnet.IpBan.Directory.{Files, FilesLaws, InAddress, first}
use bosh_dotnet.IpBan.Names.{IsNoDash, InAddress-IsNoDash}
use bosh_dotnet.IpBan.Events.{Event, connected, logged_in, run, same, same_refl, same_eq}
use bosh_dotnet.IpBan.Counts.{is_banned-run}
use bosh_dotnet.IpBan.{
  Params, dash, from_string, is_banned, add_ip_ban_connection, create_ip_state,
  find_ip_connection_state, reset_ip_state, delete_attempts, reset_ip_ban_connection,
}

abbrev ends_with : List ℕ → List ℕ → Bool
ends_with [] rest = same [] rest
ends_with (c ∷ l) rest = same (c ∷ l) rest || ends_with l rest

abbrev fit : List (List ℕ) → List ℕ → List (List ℕ)
fit [] rest = []
fit (name ∷ d) rest = let names = fit d rest in if ends_with name rest then name ∷ names else names

abbrev has_file : List (List ℕ) → List ℕ → Bool
has_file [] name = false
has_file (n ∷ d) name = same n name || has_file d name

abbrev remove : List (List ℕ) → List ℕ → List (List ℕ)
remove [] name = []
remove (n ∷ d) name = let rest = remove d name in if same n name then rest else n ∷ rest

-- The files of the folder "B", by their names.
abbrev paths : Files (List (List ℕ))
paths = record {
  find_first_file = λ d pattern. first (fit d (drop 3 pattern));
  delete_file = λ d path. (has_file d (drop 2 path), remove d (drop 2 path));
  create_file = λ d path. drop 2 path ∷ d;
}

either_true : (b : Bool) → (b || true) ≡ true
either_true true = refl
either_true false = refl

ends_with_refl : (l : List ℕ) → ends_with l l ≡ true
ends_with_refl [] = refl
ends_with_refl (c ∷ l) = rw (same_refl (c ∷ l)) refl

ends_with-append : (name rest : List ℕ) → ends_with (name ++ rest) rest ≡ true
ends_with-append [] rest = ends_with_refl rest
ends_with-append (c ∷ name) rest =
    rw (ends_with-append name rest) (either_true (same (c ∷ (name ++ rest)) rest))

ends_with_short : (a ip : List ℕ) → All IsNoDash a → ends_with a (dash ∷ ip) ≡ false
unfolding IsNoDash
ends_with_short [] ip h = refl
ends_with_short (c ∷ a) ip (e, h) = rw e (ends_with_short a ip h)

same-false : (a b : List ℕ) → a ≢ b → same a b ≡ false
same-false a b ne = elim (Bool-cases (same a b)) [ inl t ↦ absurd (ne (same_eq a b t)) | inr t ↦ t ]

ends_with_other :
    (n a ip : List ℕ)
    → All IsDigit n
    → All InAddress a
    → a ≢ ip
    → ends_with (n ++ (dash ∷ a)) (dash ∷ ip) ≡ false
ends_with_other [] a ip digits dotted ne =
    rw (same-false a ip ne) (ends_with_short a ip (All-map a InAddress-IsNoDash dotted))
ends_with_other (c ∷ n) a ip (digit, digits) dotted ne =
    let t : (c == dash) ≡ false = ground arith in rw t (ends_with_other n a ip digits dotted ne)

fit-remove :
    (d : List (List ℕ)) (name rest : List ℕ) → fit (remove d name) rest ≡ remove (fit d rest) name
fit-remove [] name rest = refl
fit-remove (n ∷ d) name rest = elim (Bool-cases (ends_with n rest)) [
  | inl t ↦ elim (Bool-cases (same n name)) [
    | inl e ↦ rw (t, e) (fit-remove d name rest)
    | inr e ↦ rw (t, e, t) (ap (λ l. n ∷ l) (fit-remove d name rest))
  ]
  | inr t ↦ elim (Bool-cases (same n name)) [
    | inl e ↦ rw (t, e) (fit-remove d name rest)
    | inr e ↦ rw (t, e, t) (fit-remove d name rest)
  ]
]

fit-remove_other :
    (d : List (List ℕ)) (name rest : List ℕ)
    → ends_with name rest ≡ false
    → fit (remove d name) rest ≡ fit d rest
fit-remove_other [] name rest h = refl
fit-remove_other (n ∷ d) name rest h = elim (Bool-cases (same n name)) [
  | inl e ↦ rw (e, same_eq n name e, h) (fit-remove_other d name rest h)
  | inr e ↦
      rw e (
        ap (λ names. if ends_with n rest then n ∷ names else names)
          (fit-remove_other d name rest h))
]

has_file-fit :
    (d : List (List ℕ)) (name rest : List ℕ)
    → has_file (fit d rest) name ≡ true
    → has_file d name ≡ true
has_file-fit [] name rest h = h
has_file-fit (n ∷ d) name rest h = elim (Bool-cases (same n name)) [
  | inl e ↦ rw e refl
  | inr e ↦ rw e (elim (Bool-cases (ends_with n rest)) [
    | inl t ↦
        let tail : has_file (fit d rest) name ≡ true = rw (t, e) at h in
        has_file-fit d name rest tail
    | inr t ↦
        let tail : has_file (fit d rest) name ≡ true = rw t at h in has_file-fit d name rest tail
  ])
]

abbrev paths_laws : FilesLaws (List (List ℕ)) paths (66 ∷ [])
paths_laws = record {
  fitting = λ d ip. fit d (dash ∷ ip);
  find-fitting = λ d ip dotted. refl;
  fitting-create = λ d name ip digits dotted h. rw (ends_with-append name (dash ∷ ip), h) refl;
  fitting-delete = λ d name ip digits dotted h. (
    has_file-fit d (name ++ (dash ∷ ip)) (dash ∷ ip)
        (ap (λ l. has_file l (name ++ (dash ∷ ip))) h ∙ rw (same_refl (name ++ (dash ∷ ip))) refl),
    fit-remove d (name ++ (dash ∷ ip)) (dash ∷ ip)
        ∙ ap (λ l. remove l (name ++ (dash ∷ ip))) h
        ∙ rw (same_refl (name ++ (dash ∷ ip))) refl,
  );
  fitting-none = λ d name ip dotted h.
      fit-remove d (drop 2 name) (dash ∷ ip) ∙ ap (λ l. remove l (drop 2 name)) h;
  create_other =
      λ d name a ip digits other dotted ne. rw (ends_with_other name a ip digits other ne) refl;
  delete_other = λ d name a ip digits other dotted ne.
      fit-remove_other d (name ++ (dash ∷ a)) (dash ∷ ip)
        (ends_with_other name a ip digits other ne);
}

abbrev two_allowed : Params
two_allowed = record { ban_max_connections = 2; ban_ip_directory = 66 ∷ [] }

-- "1.7"
abbrev address : List ℕ
address = 49 ∷ 46 ∷ 55 ∷ []

address_dotted : All InAddress address
address_dotted = (inr (omega arith, omega arith), (inl refl, (inr (omega arith, omega arith), tt)))

other_dotted : All InAddress (49 ∷ 46 ∷ 56 ∷ [])
other_dotted = (inr (omega arith, omega arith), (inl refl, (inr (omega arith, omega arith), tt)))

-- "1.8", banned before.
abbrev other_banned : List (List ℕ)
other_banned = (57 ∷ 57 ∷ 57 ∷ 57 ∷ 57 ∷ 45 ∷ 49 ∷ 46 ∷ 56 ∷ []) ∷ []

-- Three connections of the address, one of "1.8" between them and its login.
abbrev three_connections : List Event
three_connections =
    connected address
    ∷ logged_in (49 ∷ 46 ∷ 56 ∷ [])
    ∷ connected address
    ∷ connected (49 ∷ 46 ∷ 56 ∷ [])
    ∷ connected address
    ∷ []

third_file :
    run paths two_allowed three_connections other_banned
    ≡ (57 ∷ 57 ∷ 57 ∷ 57 ∷ 57 ∷ 45 ∷ address) ∷ []
unfolding run add_ip_ban_connection create_ip_state find_ip_connection_state reset_ip_state
    from_string delete_attempts reset_ip_ban_connection
third_file = refl

twelve :
    from_string (49 ∷ 50 ∷ 45 ∷ address) (record { ip = []; count = 3 })
    ≡ record { ip = address; count = 12 }
unfolding from_string
twelve = refl

two_dashes :
    from_string (49 ∷ 45 ∷ 50 ∷ 45 ∷ address) (record { ip = []; count = 3 })
    ≡ record { ip = []; count = 3 }
unfolding from_string
two_dashes = refl

is_banned-run_example :
    is_banned paths two_allowed (run paths two_allowed three_connections other_banned) address
    ≡ true
is_banned-run_example =
    is_banned-run paths two_allowed paths_laws address address_dotted three_connections other_banned
      (omega arith) (omega arith)
      (address_dotted, (other_dotted, (address_dotted, (other_dotted, (address_dotted, tt))))) refl
