-- ===== src/IpBan.antt =====
-- KIPBan of KIPBan.hxx: the connections of an address counted in the name of an empty file.
pub mod Directory
pub mod Names
pub mod Events
pub mod Counts
pub mod Tests
use bosh_dotnet.Prelude.{
  ℕ, zero, suc, ◌+◌, Bool, true, false, List, [], ◌∷◌, ◌++◌, Option, none, some, length, take, drop,
  ltb, ◌==◌, if◌then◌else◌,
}
use bosh_dotnet.Prelude.Decimal.{decimal, atoi}
use Directory.{Files}

-- BANNED.
abbrev pub banned : ℕ
banned = 99999

-- '-'.
abbrev pub dash : ℕ
dash = 45

-- params. A negative number of connections is not a value of the model.
pub record Params : Type 0 where
  pub ban_max_connections : ℕ
  pub ban_ip_directory : List ℕ

-- KIPBAN_STATE.
pub record BanState : Type 0 where
  pub ip : List ℕ
  pub count : ℕ

-- The positions of '-', from a first position on.
abbrev pub separators : ℕ → List ℕ → List ℕ
separators i [] = []
separators i (c ∷ l) = let rest = separators (suc i) l in if c == dash then i ∷ rest else rest

-- A name with another number of separators than one leaves the state.
abbrev at_separators : List ℕ → List ℕ → BanState → BanState
at_separators name (at ∷ []) s = record { ip = drop (suc at) name; count = atoi (take at name) }
at_separators name _ s = s

unfoldable pub from_string : List ℕ → BanState → BanState
unfolding atoi
from_string name s = at_separators name (separators 0 name) s

-- The path of the state file of an address: directory, "\\", count, "-", address.
abbrev pub state_file : Params → List ℕ → ℕ → List ℕ
state_file p ip count = p.ban_ip_directory ++ (92 ∷ (decimal 9 count ++ (dash ∷ ip)))

-- The pattern that finds it: directory, "\\*-", address.
abbrev pub pattern_of : Params → List ℕ → List ℕ
pattern_of p ip = p.ban_ip_directory ++ (92 ∷ 42 ∷ dash ∷ ip)

module _ {D : Type 0} (f : Files D) where
  -- DeleteFile, at most so many times, until it succeeds.
  unfoldable pub delete_attempts : ℕ → D → List ℕ → D
  delete_attempts zero d name = d
  delete_attempts (suc n) d name =
      let (deleted, e) = f.delete_file d name in
      let again = delete_attempts n e name in if deleted then e else again

module _ {D : Type 0} (f : Files D) (p : Params) where
  -- No file and another error of FindFirstFile both give a count of 0.
  abbrev found_state : List ℕ → Option (List ℕ) → BanState
  found_state ip none = record { ip = ip; count = 0 }
  found_state ip (some name) = from_string name (record { ip = ip; count = 0 })

  unfoldable pub find_ip_connection_state : D → List ℕ → BanState
  find_ip_connection_state d ip = found_state ip (f.find_first_file d (pattern_of p ip))

  unfoldable pub reset_ip_state : D → List ℕ → D
  reset_ip_state d ip =
      delete_attempts f 10 d (state_file p ip (find_ip_connection_state d ip).count)

  unfoldable pub create_ip_state : D → List ℕ → ℕ → D
  create_ip_state d ip count = f.create_file d (state_file p ip count)

  abbrev pub next_count : ℕ → ℕ
  next_count n = if ltb p.ban_max_connections (n + 1) then banned else n + 1

  unfoldable pub add_ip_ban_connection : D → List ℕ → D
  add_ip_ban_connection d ip =
      if p.ban_max_connections == 0
      then d
      else create_ip_state (reset_ip_state d ip) ip
          (next_count (find_ip_connection_state d ip).count)

  unfoldable pub is_banned : D → List ℕ → Bool
  is_banned d ip =
      if p.ban_max_connections == 0 then false else (find_ip_connection_state d ip).count == banned

  unfoldable pub reset_ip_ban_connection : D → List ℕ → D
  reset_ip_ban_connection d ip = if p.ban_max_connections == 0 then d else reset_ip_state d ip
