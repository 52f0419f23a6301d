-- ===== src/Ssh/Channel/Manage/Removal.antt =====
-- A full deletion: the channel is gone from the table and from both selections, the others stay.
use bosh_dotnet.Prelude.{ℕ, ◌≤◌, ◌≡◌, sym, ◌≢◌, ◌⊎◌, inl, inr, true, some, get_elem?, arith, le→leb}
use bosh_dotnet.Prelude.Items.{Has, All-Has}
use bosh_dotnet.Ssh.Environment.{Environment, IsDocumented}
use bosh_dotnet.Ssh.Status.{ChannelType, channel_read, channel_both}
use bosh_dotnet.Ssh.Session.{Channel, channel, ids, Session, long_max}
use bosh_dotnet.Ssh.Session.Ids.{Has-ids_at, Has-ids-erase_idx, not-Has-ids-erase_idx}
use bosh_dotnet.Ssh.Channel.Find.{number, find_channel_attr}
use bosh_dotnet.Ssh.Channel.Find.Found.{find_channel_attr-found}
use bosh_dotnet.Ssh.Channel.Manage.{delete_channel, removed}
use bosh_dotnet.Ssh.Channel.Manage.Invariant.{IsWellFormed, Issued}

-- What is left of a channel that is gone.
pub record IsGone (s t : Session) (c : Channel) : Type 0 where
  pub absent : Has c.channel_id (ids t.attributes) → ⊥
  pub not_read : t.curr_read_channel ≢ c.channel_id
  pub not_written : t.curr_write_channel ≢ c.channel_id
  pub others : (id : ℕ) → id ≢ c.channel_id → Has id (ids s.attributes) → Has id (ids t.attributes)

removed-IsGone :
    (e : Environment) (s : Session) (k : ℕ) (c : Channel)
    → IsDocumented e
    → IsWellFormed s
    → get_elem? s.attributes k ≡ some (channel c)
    → IsGone s (removed e s k c) c
unfolding removed
removed-IsGone e s k c doc w h =
    let issued : Issued s.channel_index c.channel_id =
      All-Has (Issued s.channel_index) c.channel_id (ids s.attributes) w.issued
        (Has-ids_at c s.attributes k h) in
    record {
      absent =
          rw (doc.deletes s.attributes k) (not-Has-ids-erase_idx c s.attributes k h w.distinct);
      not_read = λ q. ground arith;
      not_written = λ q. ground arith;
      others = λ id n m.
          rw (doc.deletes s.attributes k)
            (Has-ids-erase_idx c id s.attributes k h (λ q. n (sym q)) m);
    }

-- Closing the read side or both sides of a channel of a well-formed table, with leave to close the
-- last one, removes the channel from the table and from both selections, and no other channel.
pub delete_channel-IsGone :
    (e : Environment) (s : Session) (n : ℕ) (ty : ChannelType) (k : ℕ) (c : Channel)
    → IsDocumented e
    → IsWellFormed s
    → n ≤ long_max
    → (ty ≡ channel_read) ⊎ (ty ≡ channel_both)
    → find_channel_attr e s (number n) ≡ some (k, c)
    → IsGone s (delete_channel e s n ty true).0 c
unfolding delete_channel
delete_channel-IsGone e s n ty k c doc w b (inl y) f =
    rw (y, le→leb n long_max b, f)
      (removed-IsGone e s k c doc w (find_channel_attr-found e s (number n) k c f).0)
delete_channel-IsGone e s n ty k c doc w b (inr y) f =
    rw (y, le→leb n long_max b, f)
      (removed-IsGone e s k c doc w (find_channel_attr-found e s (number n) k c f).0)
