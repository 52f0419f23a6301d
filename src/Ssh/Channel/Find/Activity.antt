-- ===== src/Ssh/Channel/Find/Activity.antt =====
-- isChannelActive: true exactly when an active channel with another ID stands in the table.
use bosh_dotnet.Prelude.{
  ℕ, ◌<◌, ◌≡◌, refl, ◌≢◌, ◌⊎◌, ◌↔◌, inl, inr, true, ◌||◌, Option, some, none, length, get_elem?,
  arith, Bool-cases, ltb, ◌==◌,
}
use bosh_dotnet.Ssh.Environment.{Environment}
use bosh_dotnet.Ssh.Session.{Channel, channel, Session, unused_channel_id}
use bosh_dotnet.Ssh.Channel.Find.{is_some, is_active_except, is_channel_active, find_entry}
use bosh_dotnet.Ssh.Channel.Find.Entries.{find_entry-StandsAt, find_entry-some}

-- An active channel whose ID is not the excluded one.
abbrev pub OtherActive : Session → ℕ → Type 0
OtherActive s excluded =
    (k : ℕ) × (c : Channel) × (get_elem? s.attributes k ≡ some (channel c))
    × (c.is_active ≡ true)
    × (c.channel_id ≢ excluded)

module _ (e : Environment) (s : Session) (excluded : ℕ) where
  pub is_channel_active-OtherActive : is_channel_active e s excluded ≡ true → OtherActive s excluded
  unfolding is_channel_active
  is_channel_active-OtherActive h =
      elim (Bool-cases (excluded == unused_channel_id || ltb excluded e.max_intlength_short)) [
        | inr t ↦ cc (rw t at h)
        | inl t ↦
            found (find_entry (is_active_except excluded) e.failsafe_iterations_max 0 s.attributes)
              refl (rw t at h)
      ]
    where
      found :
          (o : Option (ℕ × Channel))
          → find_entry (is_active_except excluded) e.failsafe_iterations_max 0 s.attributes ≡ o
          → is_some o ≡ true
          → OtherActive s excluded
      found none q r = cc
      found (some (k, c)) q r =
          let (j, p, g, t) =
            find_entry-StandsAt (is_active_except excluded) e.failsafe_iterations_max 0 s.attributes
              k c q in
          (j, c, g, ground arith, ground arith)

  pub OtherActive-is_channel_active :
      (excluded ≡ unused_channel_id) ⊎ (excluded < e.max_intlength_short)
      → length s.attributes < e.failsafe_iterations_max
      → OtherActive s excluded
      → is_channel_active e s excluded ≡ true
  unfolding is_channel_active
  OtherActive-is_channel_active r b (k, c, g, a, n) =
      let t : is_active_except excluded c ≡ true = ground arith in
      let (f, q) =
        find_entry-some (is_active_except excluded) e.failsafe_iterations_max 0 s.attributes k c g t
          b in
      rw q (ground arith)

  -- Where the excluded ID is one that the call accepts, and the list is within the limit of the
  -- search, the call answers true exactly if an active channel with another ID is in the table.
  pub is_channel_active_iff :
      (excluded ≡ unused_channel_id) ⊎ (excluded < e.max_intlength_short)
      → length s.attributes < e.failsafe_iterations_max
      → (is_channel_active e s excluded ≡ true) ↔ OtherActive s excluded
  is_channel_active_iff r b = (is_channel_active-OtherActive, OtherActive-is_channel_active r b)
