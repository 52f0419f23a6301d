-- ===== src/IpBan/Directory.antt =====
-- The file calls of Windows that KIPBan.hxx makes, on a type of file systems.
use bosh_dotnet.Prelude.{◌≢◌, [], Bool, ◌⊎◌, List, ◌∷◌, ◌++◌, Option, none, some, ◌≡◌, true, ℕ}
use bosh_dotnet.Prelude.Items.{All}
use bosh_dotnet.Prelude.Decimal.{IsDigit}

-- FindFirstFile gives the name of the first file that fits a pattern; DeleteFile, whether it
-- deleted; CreateFile with CREATE_ALWAYS and a failure leaves what there is.
pub record Files (D : Type 0) : Type 0 where
  pub find_first_file : D → (pattern : List ℕ) → Option (List ℕ)
  pub delete_file : D → (name : List ℕ) → Bool × D
  pub create_file : D → (name : List ℕ) → D

abbrev pub first : List (List ℕ) → Option (List ℕ)
first [] = none
first (name ∷ names) = some name

-- A dotted address.
abbrev pub InAddress : ℕ → Type 0
InAddress c = (c ≡ 46) ⊎ IsDigit c

-- What the calls do in a folder that exists, may be written, and that no other process uses, for
-- names of digits, a '-' and a dotted address. `fitting` lists the names that fit the pattern
-- "folder\\*-address": the search finds the first. The creation of the only one makes it the only
-- one, its deletion succeeds and leaves none, and where none fits none is deleted. The files of
-- another address make no difference.
pub record FilesLaws (D : Type 0) (f : Files D) (folder : List ℕ) : Type 0 where
  pub fitting : D → (ip : List ℕ) → List (List ℕ)
  pub find-fitting :
      (d : D) (ip : List ℕ)
      → All InAddress ip
      → f.find_first_file d (folder ++ (92 ∷ 42 ∷ 45 ∷ ip)) ≡ first (fitting d ip)
  pub fitting-create :
      (d : D) (name ip : List ℕ)
      → All IsDigit name
      → All InAddress ip
      → fitting d ip ≡ []
      → fitting (f.create_file d (folder ++ (92 ∷ (name ++ (45 ∷ ip))))) ip
        ≡ (name ++ (45 ∷ ip)) ∷ []
  pub fitting-delete :
      (d : D) (name ip : List ℕ)
      → All IsDigit name
      → All InAddress ip
      → fitting d ip ≡ (name ++ (45 ∷ ip)) ∷ []
      → let deleted = f.delete_file d (folder ++ (92 ∷ (name ++ (45 ∷ ip)))) in
        (deleted.0 ≡ true) × (fitting deleted.1 ip ≡ [])
  pub fitting-none :
      (d : D) (name ip : List ℕ)
      → All InAddress ip
      → fitting d ip ≡ []
      → fitting (f.delete_file d name).1 ip ≡ []
  pub create_other :
      (d : D) (name a ip : List ℕ)
      → All IsDigit name
      → All InAddress a
      → All InAddress ip
      → a ≢ ip
      → fitting (f.create_file d (folder ++ (92 ∷ (name ++ (45 ∷ a))))) ip ≡ fitting d ip
  pub delete_other :
      (d : D) (name a ip : List ℕ)
      → All IsDigit name
      → All InAddress a
      → All InAddress ip
      → a ≢ ip
      → fitting (f.delete_file d (folder ++ (92 ∷ (name ++ (45 ∷ a))))).1 ip ≡ fitting d ip
