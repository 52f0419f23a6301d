-- ===== src/Ssh/Message/Report.antt =====
-- The close messages: what they report, and what they leave of the channel.
use bosh_dotnet.Prelude.{ℕ, ◌≤◌, ◌≡◌, refl, ◌∙◌, ◌⊎◌, inl, inr, true, false, some, Bool-cases}
use bosh_dotnet.Ssh.Environment.{Environment}
use bosh_dotnet.Ssh.Status.{Status, ok_special, complete, channel_both}
use bosh_dotnet.Ssh.Session.{Session, long_max, unused_channel_id}
use bosh_dotnet.Ssh.Channel.Find.{is_channel_active, get_channel_status_by_channel_no}
use bosh_dotnet.Ssh.Channel.Manage.Ends.{ReportsLast, delete_channel-ReportsLast}
use bosh_dotnet.Ssh.Message.{send_channel_close}
use bosh_dotnet.Ssh.Message.Control.{process_close, report_close, is_channel_both}

module _ (e : Environment) where
  -- The connection is reported complete when no active channel is left, and only then.
  abbrev pub ReportsEnd : Session × Status → Type 0
  ReportsEnd (t, st) =
      ((st ≡ complete) × (t.send_closed ≡ true) × (is_channel_active e t unused_channel_id ≡ false))
      ⊎ ((st ≡ ok_special) × (is_channel_active e t unused_channel_id ≡ true))

  is_channel_active-send_closed :
      (s : Session) (n : ℕ)
      → is_channel_active e (record s { send_closed = true }) n ≡ is_channel_active e s n
  unfolding is_channel_active
  is_channel_active-send_closed s n = refl

  report_close-ReportsEnd :
      (s : Session) (st : Status) → ReportsLast e (s, st) → ReportsEnd (report_close (s, st))
  report_close-ReportsEnd s st (inl (q, a)) =
      rw q (inl (refl, refl, is_channel_active-send_closed s unused_channel_id ∙ a))
  report_close-ReportsEnd s st (inr (q, a)) = rw q (inr (refl, a))

  -- After an EOF or close message for a channel number that is in range, the connection is
  -- reported complete, with its sending side closed, if no active channel is left, and the next
  -- packet is asked for if one is left. This holds on a channel that was open on both sides, where
  -- the deletion is tried a second time after the close was answered, as on one that was not.
  pub process_close-ReportsEnd :
      (s : Session) (n : ℕ) → n ≤ long_max → ReportsEnd (process_close e s n)
  unfolding process_close
  process_close-ReportsEnd s n b =
      let answered = (send_channel_close e s (some n) channel_both true).0 in
      elim (Bool-cases (is_channel_both (get_channel_status_by_channel_no e s n))) [
        | inl t ↦ rw t (report_close-ReportsEnd _ _ (delete_channel-ReportsLast e answered n b))
        | inr t ↦ rw t (report_close-ReportsEnd _ _ (delete_channel-ReportsLast e s n b))
      ]
