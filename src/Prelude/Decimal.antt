-- ===== src/Prelude/Decimal.antt =====
-- Numbers in decimal: their digits as text, and atoi of the C library.
use Prim.Native.Nat.{ℕ, zero, suc, ◌+◌, ◌-◌, ◌*◌, ◌/◌, ◌%◌, ◌≤◌, ◌<◌}
use mathlib.Core.Path.{◌≡◌, refl, ap, ◌∙◌}
use mathlib.Core.Bool.{Bool, true, false, ◌&&◌, ◌||◌}
use mathlib.Core.List.{List, [], ◌∷◌, ◌++◌}
use mathlib.Core.Logic.{inl, inr}
use native.Mathlib.Omega.{arith}
use bosh_dotnet.Prelude.Tests.{ltb, leb, ◌==◌, if◌then◌else◌, Bool-cases}
use bosh_dotnet.Prelude.Items.{All, All-append}

-- "%d" of a number, on the fuel of one digit less than it may have.
abbrev pub decimal : ℕ → ℕ → List ℕ
decimal zero n = (48 + n % 10) ∷ []
decimal (suc fuel) n =
    let before = decimal fuel (n / 10) in
    if ltb n 10 then (48 + n) ∷ [] else before ++ (48 + n % 10) ∷ []

abbrev pub is_digit : ℕ → Bool
is_digit c = leb 48 c && leb c 57

abbrev pub IsDigit : ℕ → Type 0
IsDigit c = (48 ≤ c) × (c ≤ 57)

-- The number that the digits at the start stand for, behind the digits read before.
abbrev pub digits_value : ℕ → List ℕ → ℕ
digits_value n [] = n
digits_value n (c ∷ l) = if is_digit c then digits_value (10 * n + c - 48) l else n

abbrev pub is_space : ℕ → Bool
is_space c = c == 32 || (leb 9 c && leb c 13)

-- Spaces and one plus sign may stand before the digits. A minus sign makes no difference to the
-- callers, whose texts have none.
abbrev pub behind_plus : List ℕ → List ℕ
behind_plus [] = []
behind_plus (c ∷ l) = if c == 43 then l else c ∷ l

abbrev pub behind_spaces : List ℕ → List ℕ
behind_spaces [] = []
behind_spaces (c ∷ l) = if is_space c then behind_spaces l else c ∷ l

unfoldable pub atoi : List ℕ → ℕ
atoi l = digits_value 0 (behind_plus (behind_spaces l))

pub decimal-IsDigit : (fuel n : ℕ) → All IsDigit (decimal fuel n)
decimal-IsDigit zero n = ((omega arith, omega arith), tt)
decimal-IsDigit (suc fuel) n = elim (Bool-cases (ltb n 10)) [
  | inl t ↦ rw t ((omega arith, ground arith), tt)
  | inr t ↦ rw t (
      All-append IsDigit (decimal fuel (n / 10)) (48 + n % 10) (decimal-IsDigit fuel (n / 10))
        (omega arith, omega arith))
]

digits_value-append :
    (n : ℕ) (l : List ℕ) (d : ℕ)
    → All IsDigit l
    → d < 10
    → digits_value n (l ++ (48 + d) ∷ []) ≡ 10 * digits_value n l + d
digits_value-append n [] d h small =
    let t : is_digit (48 + d) ≡ true = ground arith in rw t (omega arith)
digits_value-append n (c ∷ l) d (digit, rest) small =
    let t : is_digit c ≡ true = ground arith in
    rw t (digits_value-append (10 * n + c - 48) l d rest small)

-- The number has no more digits than the fuel allows.
abbrev pub Fits : ℕ → ℕ → Type 0
Fits zero n = n < 10
Fits (suc fuel) n = Fits fuel (n / 10)

digits_value-decimal : (fuel n : ℕ) → Fits fuel n → digits_value 0 (decimal fuel n) ≡ n
digits_value-decimal zero n h =
    let t : is_digit (48 + n % 10) ≡ true = ground arith in rw t (omega arith)
digits_value-decimal (suc fuel) n h = elim (Bool-cases (ltb n 10)) [
  | inl t ↦ let d : is_digit (48 + n) ≡ true = ground arith in rw (t, d) (omega arith)
  | inr t ↦ rw t (
      digits_value-append 0 (decimal fuel (n / 10)) (n % 10) (decimal-IsDigit fuel (n / 10))
        (omega arith)
      ∙ ap (λ m. 10 * m + n % 10) (digits_value-decimal fuel (n / 10) h)
      ∙ omega arith)
]

-- Digits have neither spaces nor a sign before them.
behind_plus-spaces : (l : List ℕ) → All IsDigit l → behind_plus (behind_spaces l) ≡ l
behind_plus-spaces [] h = refl
behind_plus-spaces (c ∷ l) (digit, rest) =
    let s : is_space c ≡ false = ground arith in
    let p : (c == 43) ≡ false = ground arith in rw (s, p) refl

pub atoi-decimal : (fuel n : ℕ) → Fits fuel n → atoi (decimal fuel n) ≡ n
unfolding atoi
atoi-decimal fuel n h =
    ap (digits_value 0) (behind_plus-spaces (decimal fuel n) (decimal-IsDigit fuel n))
    ∙ digits_value-decimal fuel n h
