-- ===== src/Prelude/Items.antt =====
-- Predicates on lists of numbers, by recursion: every entry, an entry, no entry twice.
use mathlib.Core.Logic.{◌⊎◌, inl, inr}
use mathlib.Core.Path.{◌≡◌, refl, sym, subst}
use mathlib.Core.List.{List, [], ◌∷◌, ◌++◌}
use Prim.Native.Nat.{ℕ}

abbrev pub All {ℓ κ} : {A : Type ℓ} → (A → Type κ) → List A → Type κ
All P [] = Unit
All P (x ∷ xs) = P x × All P xs

-- The number stands in the list.
abbrev pub Has : ℕ → List ℕ → Type 0
Has n [] = ⊥
Has n (x ∷ xs) = (x ≡ n) ⊎ Has n xs

-- No number stands in the list twice.
abbrev pub Distinct : List ℕ → Type 0
Distinct [] = Unit
Distinct (x ∷ xs) = (Has x xs → ⊥) × Distinct xs

pub All-append {ℓ κ} :
    {A : Type ℓ} (P : A → Type κ) (xs : List A) (a : A) → All P xs → P a → All P (xs ++ a ∷ [])
All-append P [] a h p = (p, tt)
All-append P (x ∷ xs) a h p = (h.0, All-append P xs a h.1 p)

pub All-map {ℓ κ μ} :
    {A : Type ℓ} {P : A → Type κ} {Q : A → Type μ} (xs : List A)
    → ((a : A) → P a → Q a)
    → All P xs
    → All Q xs
All-map [] f h = tt
All-map (x ∷ xs) f h = (f x h.0, All-map xs f h.1)

pub All-Has {κ} : (P : ℕ → Type κ) (n : ℕ) (xs : List ℕ) → All P xs → Has n xs → P n
All-Has P n [] h m = absurd m
All-Has P n (x ∷ xs) h (inl e) = subst P e h.0
All-Has P n (x ∷ xs) h (inr m) = All-Has P n xs h.1 m

pub Has-append : (n : ℕ) (xs : List ℕ) (a : ℕ) → Has n xs → Has n (xs ++ a ∷ [])
Has-append n [] a h = absurd h
Has-append n (x ∷ xs) a (inl e) = inl e
Has-append n (x ∷ xs) a (inr m) = inr (Has-append n xs a m)

pub Has-last : (xs : List ℕ) (a : ℕ) → Has a (xs ++ a ∷ [])
Has-last [] a = inl refl
Has-last (x ∷ xs) a = inr (Has-last xs a)

Has-append_inv : (n : ℕ) (xs : List ℕ) (a : ℕ) → Has n (xs ++ a ∷ []) → Has n xs ⊎ (a ≡ n)
Has-append_inv n [] a (inl e) = inr e
Has-append_inv n [] a (inr e) = absurd e
Has-append_inv n (x ∷ xs) a (inl e) = inl (inl e)
Has-append_inv n (x ∷ xs) a (inr m) = elim (Has-append_inv n xs a m) [
  | inl k ↦ inl (inr k)
  | inr e ↦ inr e
]

pub Distinct-append : (xs : List ℕ) (a : ℕ) → Distinct xs → (Has a xs → ⊥) → Distinct (xs ++ a ∷ [])
Distinct-append [] a d h = (λ m. m, tt)
Distinct-append (x ∷ xs) a d h = (
  λ m. elim (Has-append_inv x xs a m) [ inl k ↦ d.0 k | inr e ↦ h (inl (sym e)) ],
  Distinct-append xs a d.1 (λ m. h (inr m)),
)
