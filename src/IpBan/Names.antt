-- ===== src/IpBan/Names.antt =====
-- The names of the state files of KIPBan.hxx, as FromString reads them.
use bosh_dotnet.Prelude.{
  ℕ, suc, ◌+◌, ◌≡◌, refl, ap, ◌∙◌, false, List, [], ◌∷◌, ◌++◌, length, ◌==◌, inl, inr, arith, drop,
  take-append,
}
use bosh_dotnet.Prelude.Items.{All, All-map}
use bosh_dotnet.Prelude.Decimal.{decimal, atoi, atoi-decimal, Fits, IsDigit, decimal-IsDigit}
use bosh_dotnet.IpBan.Directory.{InAddress}
use bosh_dotnet.IpBan.{BanState, dash, separators, from_string}

drop_next : (a ip : List ℕ) → drop (suc (length a)) (a ++ (dash ∷ ip)) ≡ ip
drop_next [] ip = refl
drop_next (c ∷ a) ip = drop_next a ip

unfoldable pub IsNoDash : ℕ → Type 0
IsNoDash c = (c == dash) ≡ false

pub IsDigit-IsNoDash : (c : ℕ) → IsDigit c → IsNoDash c
unfolding IsNoDash
IsDigit-IsNoDash c h = ground arith

pub InAddress-IsNoDash : (c : ℕ) → InAddress c → IsNoDash c
unfolding IsNoDash
InAddress-IsNoDash c (inl e) = ground arith
InAddress-IsNoDash c (inr h) = ground arith

separators-none : (i : ℕ) (l : List ℕ) → All IsNoDash l → separators i l ≡ []
unfolding IsNoDash
separators-none i [] h = refl
separators-none i (c ∷ l) (e, h) = rw e (separators-none (suc i) l h)

separators-one :
    (i : ℕ) (a ip : List ℕ)
    → All IsNoDash a
    → All IsNoDash ip
    → separators i (a ++ (dash ∷ ip)) ≡ (i + length a) ∷ []
unfolding IsNoDash
separators-one i [] ip h k = rw (separators-none (suc i) ip k) (ap (λ n. n ∷ []) (omega arith))
separators-one i (c ∷ a) ip (e, h) k =
    rw (e, separators-one (suc i) a ip h k) (ap (λ n. n ∷ []) (omega arith))

from_string-one :
    (a ip : List ℕ) (s : BanState)
    → All IsNoDash a
    → All IsNoDash ip
    → from_string (a ++ (dash ∷ ip)) s ≡ record { ip = ip; count = atoi a }
unfolding from_string
from_string-one a ip s h k =
    let zero_plus : 0 + length a ≡ length a = omega arith in
    rw (separators-one 0 a ip h k, zero_plus, take-append a (dash ∷ ip), drop_next a ip) refl

-- The file name that createIPState makes reads back as the count and the address in it: FromString
-- of "count-address" behind any state gives both, for a count of at most ten digits and a dotted
-- address.
pub from_string-decimal :
    (n : ℕ) (ip : List ℕ) (s : BanState)
    → Fits 9 n
    → All InAddress ip
    → from_string (decimal 9 n ++ (dash ∷ ip)) s ≡ record { ip = ip; count = n }
from_string-decimal n ip s h k =
    from_string-one (decimal 9 n) ip s
      (All-map (decimal 9 n) IsDigit-IsNoDash (decimal-IsDigit 9 n))
      (All-map ip InAddress-IsNoDash k)
    ∙ ap (λ m. record { ip = ip; count = m }) (atoi-decimal 9 n h)
