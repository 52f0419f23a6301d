-- ===== src/Ssh/Channel/Manage/Invariant.antt =====
-- The invariant of the channel table, and the operations on its parts that keep it.
use bosh_dotnet.Prelude.{ℕ, ◌+◌, ◌≤◌, ◌<◌, ◌≡◌, ◌⊎◌, List, some, length, get_elem?, set, arith}
use bosh_dotnet.Prelude.Items.{All, All-map, All-Has, Has, Distinct}
use bosh_dotnet.Ssh.Session.{
  Channel, channel, channels, ids, Session, unused_channel_id, ssh_max_channels,
}
use bosh_dotnet.Ssh.Session.Ids.{ids-set, length-channels-set}

-- An ID that has been given out.
abbrev pub Issued : ℕ → ℕ → Type 0
Issued index id = (0 < id) × (id < index)

-- A current channel is no channel, or one of the table.
abbrev pub IsCurrent : ℕ → List ℕ → Type 0
IsCurrent id table = (id ≡ unused_channel_id) ⊎ Has id table

pub record IsWellFormed (s : Session) : Type 0 where
  pub issued : All (Issued s.channel_index) (ids s.attributes)
  pub distinct : Distinct (ids s.attributes)
  pub read_current : IsCurrent s.curr_read_channel (ids s.attributes)
  pub write_current : IsCurrent s.curr_write_channel (ids s.attributes)
  pub counted : length (channels s.attributes) ≤ ssh_max_channels + 1

pub Issued-grows :
    (l : List ℕ) (index index' : ℕ) → index ≤ index' → All (Issued index) l → All (Issued index') l
Issued-grows l index index' h = All-map l (λ i p. (p.0, omega arith))

-- The next ID is not in the table.
pub not-Has-index : (l : List ℕ) (index : ℕ) → All (Issued index) l → Has index l → ⊥
not-Has-index l index h m = let p = All-Has (Issued index) index l h m in omega arith

-- An item written in place with its ID kept.
pub set-IsWellFormed :
    (s t : Session) (k : ℕ) (c d : Channel)
    → IsWellFormed s
    → get_elem? s.attributes k ≡ some (channel c)
    → c.channel_id ≡ d.channel_id
    → t.attributes ≡ set s.attributes k (channel d)
    → t.channel_index ≡ s.channel_index
    → IsCurrent t.curr_read_channel (ids s.attributes)
    → IsCurrent t.curr_write_channel (ids s.attributes)
    → IsWellFormed t
set-IsWellFormed s t k c d w h e a i r v =
    let same : ids t.attributes ≡ ids s.attributes = rw a (ids-set c d s.attributes k h e) in
    record {
      issued = rw (same, i) w.issued;
      distinct = rw same w.distinct;
      read_current = rw same r;
      write_current = rw same v;
      counted = rw a (omega (arith, w.counted, length-channels-set c d s.attributes k h));
    }
