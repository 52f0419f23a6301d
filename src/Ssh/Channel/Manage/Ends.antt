-- ===== src/Ssh/Channel/Manage/Ends.antt =====
-- When deleteChannel reports the last channel.
use bosh_dotnet.Prelude.{
  ℕ, ◌≤◌, ◌≡◌, refl, ◌⊎◌, inl, inr, true, false, Option, some, none, le→leb, if◌then◌else◌,
  Bool-cases,
}
use bosh_dotnet.Ssh.Environment.{Environment}
use bosh_dotnet.Ssh.Status.{Status, ok_special, not_found, is_special, channel_both}
use bosh_dotnet.Ssh.Session.{Session, Channel, long_max, unused_channel_id}
use bosh_dotnet.Ssh.Channel.Find.{is_channel_active, find_channel_attr, number}
use bosh_dotnet.Ssh.Channel.Manage.{delete_channel, delete_found, removed, done_if}

module _ (e : Environment) where
  -- The report of the last channel and the activity of the session that is left agree.
  abbrev pub ReportsLast : Session × Status → Type 0
  ReportsLast (t, st) =
      ((st ≡ ok_special) × (is_channel_active e t unused_channel_id ≡ false))
      ⊎ ((is_special st ≡ false) × (is_channel_active e t unused_channel_id ≡ true))

  done_if-ReportsLast :
      (t : Session) → ReportsLast (t, done_if (is_channel_active e t unused_channel_id))
  done_if-ReportsLast t = elim (Bool-cases (is_channel_active e t unused_channel_id)) [
    | inl a ↦ inr (rw a refl, a)
    | inr a ↦ inl (rw a refl, a)
  ]

  absent-ReportsLast :
      (s : Session)
      → ReportsLast (s, if is_channel_active e s unused_channel_id then not_found else ok_special)
  absent-ReportsLast s = elim (Bool-cases (is_channel_active e s unused_channel_id)) [
    | inl a ↦ inr (rw a refl, a)
    | inr a ↦ inl (rw a refl, a)
  ]

  delete_found-ReportsLast :
      (s : Session) (o : Option (ℕ × Channel)) → ReportsLast (delete_found e s channel_both true o)
  unfolding delete_found
  delete_found-ReportsLast s none = absent-ReportsLast s
  delete_found-ReportsLast s (some (k, c)) = done_if-ReportsLast (removed e s k c)

  -- A deletion of both sides with leave to close the last channel reports the last channel exactly
  -- when no active channel is left, whether it found the channel or not.
  pub delete_channel-ReportsLast :
      (s : Session) (n : ℕ) → n ≤ long_max → ReportsLast (delete_channel e s n channel_both true)
  unfolding delete_channel
  delete_channel-ReportsLast s n b =
      rw (le→leb n long_max b) (delete_found-ReportsLast s (find_channel_attr e s (number n)))
