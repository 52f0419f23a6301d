-- ===== src/IpBan/Events.antt =====
-- What KSession does at a connection and at a login, by the functions of KIPBan.hxx, and the
-- connections that count.
use bosh_dotnet.Prelude.{
  ℕ, ◌+◌, ◌<◌, ◌≡◌, refl, ap, ◌∙◌, Bool, true, false, ◌&&◌, ◌≢◌, List, [], ◌∷◌, ltb, ◌==◌,
  if◌then◌else◌, if_cases, arith, subst,
}
use bosh_dotnet.Prelude.Decimal.{Fits}
use bosh_dotnet.IpBan.Directory.{Files}
use bosh_dotnet.IpBan.{Params, banned, next_count, add_ip_ban_connection, reset_ip_ban_connection}

-- A connection from an address, and a login from it (or one whose password has to change first),
-- which releases the ban.
pub data Event : Type 0 where
  connected : List ℕ → Event
  logged_in : List ℕ → Event

abbrev pub address_of : Event → List ℕ
address_of (connected a) = a
address_of (logged_in a) = a

-- The events of a list, the last one first in it, on the directory.
unfoldable pub run : {D : Type 0} → Files D → Params → List Event → D → D
run f p [] d = d
run f p (connected a ∷ es) d = add_ip_ban_connection f p (run f p es d) a
run f p (logged_in a ∷ es) d = reset_ip_ban_connection f p (run f p es d) a

abbrev pub same : List ℕ → List ℕ → Bool
same [] [] = true
same [] (y ∷ ys) = false
same (x ∷ xs) [] = false
same (x ∷ xs) (y ∷ ys) = (x == y) && same xs ys

-- The connections of the address since its last login.
abbrev pub since_login : List ℕ → List Event → ℕ
since_login ip [] = 0
since_login ip (connected a ∷ es) = let n = since_login ip es in if same a ip then n + 1 else n
since_login ip (logged_in a ∷ es) = let n = since_login ip es in if same a ip then 0 else n

pub same_refl : (l : List ℕ) → same l l ≡ true
same_refl [] = refl
same_refl (c ∷ l) = let t : (c == c) ≡ true = ground arith in rw (t, same_refl l) refl

pub same_eq : (a b : List ℕ) → same a b ≡ true → a ≡ b
same_eq [] [] h = refl
same_eq [] (y ∷ ys) h = ground arith
same_eq (x ∷ xs) [] h = ground arith
same_eq (x ∷ xs) (y ∷ ys) h =
    let head : x ≡ y = ground arith in
    let tail : same xs ys ≡ true = ground arith in
    ap (λ n. n ∷ xs) head ∙ ap (λ l. y ∷ l) (same_eq xs ys tail)

pub same_ne : (a b : List ℕ) → same a b ≡ false → a ≢ b
same_ne a b h e =
    let t : same a b ≡ true = subst (λ l. same a l ≡ true) e (same_refl a) in ground arith

-- The count that stands for so many connections.
abbrev pub count_after : Params → ℕ → ℕ
count_after p n = if ltb p.ban_max_connections n then banned else n

pub count_after-banned :
    (p : Params) (n : ℕ)
    → p.ban_max_connections < banned
    → (count_after p n == banned) ≡ ltb p.ban_max_connections n
count_after-banned p n high = ground arith

pub next-count_after :
    {D : Type 0} (f : Files D) (p : Params) (n : ℕ)
    → p.ban_max_connections < banned
    → next_count f p (count_after p n) ≡ count_after p (n + 1)
next-count_after f p n high = ground arith

pub Fits-next :
    {D : Type 0} (f : Files D) (p : Params) (n : ℕ)
    → p.ban_max_connections < banned
    → Fits 9 (next_count f p n)
Fits-next f p n high =
    if_cases (Fits 9) (ltb p.ban_max_connections (n + 1)) banned (n + 1) (λ _. omega arith)
      (λ t. let small : n + 1 < 100000 = ground arith in omega arith)
