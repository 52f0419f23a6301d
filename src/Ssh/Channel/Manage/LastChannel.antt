-- ===== src/Ssh/Channel/Manage/LastChannel.antt =====
-- The guard of deleteChannel on the last channel.
use bosh_dotnet.Prelude.{
  ℕ, ◌≤◌, ◌<◌, ◌≡◌, refl, ◌∙◌, ◌≢◌, inl, inr, true, false, some, none, length, get_elem?,
  length-set, length-erase_idx-le, get_elem?-set_ne, get_elem?-erase_idx, arith,
}
use bosh_dotnet.Prelude.Items.{All-Has}
use bosh_dotnet.Ssh.Environment.{Environment, IsDocumented}
use bosh_dotnet.Ssh.Status.{ok_special, ChannelType}
use bosh_dotnet.Ssh.Session.{Channel, channel, ids, Session, unused_channel_id}
use bosh_dotnet.Ssh.Session.Ids.{Has-ids_at}
use bosh_dotnet.Ssh.Channel.Find.{number, find_channel_attr, is_channel_active}
use bosh_dotnet.Ssh.Channel.Find.Activity.{
  OtherActive, is_channel_active-OtherActive, OtherActive-is_channel_active,
}
use bosh_dotnet.Ssh.Channel.Find.Found.{find_channel_attr-found}
use bosh_dotnet.Ssh.Channel.Manage.{delete_channel, removed, write_closed}
use bosh_dotnet.Ssh.Channel.Manage.Delete.{delete_channel-Deletes}
use bosh_dotnet.Ssh.Channel.Manage.Invariant.{IsWellFormed, Issued}

-- Two entries with different IDs stand at different places.
apart :
    (s : Session) (j k : ℕ) (c d : Channel)
    → get_elem? s.attributes k ≡ some (channel c)
    → get_elem? s.attributes j ≡ some (channel d)
    → d.channel_id ≢ c.channel_id
    → k ≢ j
apart s j k c d h g n q = n (cc)

module _ (e : Environment) (s : Session) (k : ℕ) (c : Channel) (w : IsWellFormed s) where
  positive : (j : ℕ) (d : Channel) → get_elem? s.attributes j ≡ some (channel d) → 0 < d.channel_id
  positive j d g =
      (All-Has (Issued s.channel_index) d.channel_id (ids s.attributes) w.issued
        (Has-ids_at d s.attributes j g)).0

  OtherActive-removed :
      IsDocumented e
      → get_elem? s.attributes k ≡ some (channel c)
      → OtherActive s c.channel_id
      → OtherActive (removed e s k c) unused_channel_id
  unfolding removed
  OtherActive-removed doc h (j, d, g, a, n) =
      let (i, q) = get_elem?-erase_idx s.attributes k j (channel d) g (apart s j k c d h g n) in
      (i, d, rw (doc.deletes s.attributes k) q, a, omega (arith, positive j d g))

  OtherActive-write_closed :
      get_elem? s.attributes k ≡ some (channel c)
      → OtherActive s c.channel_id
      → OtherActive (write_closed s k c) c.channel_id
        × OtherActive (write_closed s k c) unused_channel_id
  unfolding write_closed
  OtherActive-write_closed h (j, d, g, a, n) =
      let closed = channel (record c { is_write_closed = true }) in
      let q = get_elem?-set_ne s.attributes k j closed (apart s j k c d h g n) in
      ((j, d, q ∙ g, a, n), (j, d, q ∙ g, a, omega (arith, positive j d g)))

  length-removed : IsDocumented e → length (removed e s k c).attributes ≤ length s.attributes
  unfolding removed
  length-removed doc = rw (doc.deletes s.attributes k) (length-erase_idx-le s.attributes k)

  length-write_closed : length (write_closed s k c).attributes ≡ length s.attributes
  unfolding write_closed
  length-write_closed = length-set s.attributes k (channel (record c { is_write_closed = true }))

-- Without leave to close the last channel, a deletion of a channel that is there, in a well-formed
-- session with an active channel whose IDs and list are within the limits of the searches, never
-- reports the last channel gone, and the session keeps an active channel.
pub delete_channel-keeps_active :
    (e : Environment) (s : Session) (n : ℕ) (ty : ChannelType)
    → IsDocumented e
    → IsWellFormed s
    → s.channel_index ≤ e.max_intlength_short
    → length s.attributes < e.failsafe_iterations_max
    → find_channel_attr e s (number n) ≢ none
    → is_channel_active e s unused_channel_id ≡ true
    → ((delete_channel e s n ty false).1 ≢ ok_special)
      × (is_channel_active e (delete_channel e s n ty false).0 unused_channel_id ≡ true)
delete_channel-keeps_active e s n ty doc w short b f r =
    elim (delete_channel-Deletes e s n ty false) [
      | inl (t, st) ↦ (λ q. ground arith, rw t r)
      | inr (k, c, g, a, inl (y, o, t, st)) ↦
          let at = (find_channel_attr-found e s (number n) k c g).0 in
          let other = is_channel_active-OtherActive e s c.channel_id (ground arith) in
          let (o1, o2) = OtherActive-write_closed e s k c w at other in
          let issued =
            All-Has (Issued s.channel_index) c.channel_id (ids s.attributes) w.issued
              (Has-ids_at c s.attributes k at) in
          let len = length-write_closed e s k c w in
          let a1 =
            OtherActive-is_channel_active e (write_closed s k c) c.channel_id (inr (omega arith))
              (omega arith) o1 in
          let a2 =
            OtherActive-is_channel_active e (write_closed s k c) unused_channel_id (inl refl)
              (omega arith) o2 in
          (λ q. ground arith, rw t a2)
      | inr (k, c, g, a, inr (y, t, st)) ↦
          let at = (find_channel_attr-found e s (number n) k c g).0 in
          let other = is_channel_active-OtherActive e s c.channel_id (ground arith) in
          let len = length-removed e s k c w doc in
          let a1 =
            OtherActive-is_channel_active e (removed e s k c) unused_channel_id (inl refl)
              (omega arith) (OtherActive-removed e s k c w doc at other) in
          (λ q. ground arith, rw t a1)
    ]
