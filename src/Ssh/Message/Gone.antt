-- ===== src/Ssh/Message/Gone.antt =====
-- The close messages: the channel they name is gone.
use bosh_dotnet.Prelude.{ℕ, ◌≤◌, ◌≡◌, refl, inl, inr, true, not, ◌&&◌, some, Bool-cases, le→leb}
use bosh_dotnet.Prelude.Items.{Has}
use bosh_dotnet.Ssh.Environment.{Environment, IsDocumented}
use bosh_dotnet.Ssh.Status.{Status, is_error, is_special, channel_both}
use bosh_dotnet.Ssh.Session.{Session, Channel, ids, long_max}
use bosh_dotnet.Ssh.Session.Ids.{Has-ids-erase_idx_of}
use bosh_dotnet.Ssh.Channel.Find.{find_channel_attr, number, get_channel_status_by_channel_no}
use bosh_dotnet.Ssh.Channel.Manage.{delete_channel, removed}
use bosh_dotnet.Ssh.Channel.Manage.Invariant.{IsWellFormed}
use bosh_dotnet.Ssh.Channel.Manage.Delete.{delete_channel-Deletes}
use bosh_dotnet.Ssh.Channel.Manage.Removal.{delete_channel-IsGone}
use bosh_dotnet.Ssh.Message.{send_channel_close}
use bosh_dotnet.Ssh.Message.Control.{process_close, report_close, is_channel_both}
use bosh_dotnet.Ssh.Message.Table.{notify_close-HaveSameTable}

module _ (e : Environment) (doc : IsDocumented e) where
  -- A deletion brings no channel back.
  Has-delete_channel :
      (s : Session) (n id : ℕ)
      → Has id (ids (delete_channel e s n channel_both true).0.attributes)
      → Has id (ids s.attributes)
  unfolding removed
  Has-delete_channel s n id h = elim (delete_channel-Deletes e s n channel_both true) [
    | inl (q, st) ↦ rw q at h
    | inr (k, c, f, a, inl (y, o, q, st)) ↦ cc
    | inr (k, c, f, a, inr (y, q, st)) ↦
        Has-ids-erase_idx_of id s.attributes k (rw (q, doc.deletes s.attributes k) at h)
  ]

  module _ (s : Session) (n k : ℕ) (c : Channel) (w : IsWellFormed s) (b : n ≤ long_max)
      (f : find_channel_attr e s (number n) ≡ some (k, c)) where
    deleted-absent :
        Has c.channel_id (ids (delete_channel e s n channel_both true).0.attributes) → ⊥
    deleted-absent = (delete_channel-IsGone e s n channel_both k c doc w b (inr refl) f).absent

    answered-absent :
        Has c.channel_id (ids (send_channel_close e s (some n) channel_both true).0.attributes) → ⊥
    unfolding send_channel_close
    answered-absent h =
        let deleted = delete_channel e s n channel_both true in
        elim (Bool-cases (is_error deleted.1 && not (is_special deleted.1))) [
          | inl u ↦ deleted-absent (rw (le→leb n long_max b, u) at h)
          | inr u ↦
              let same = notify_close-HaveSameTable e doc deleted.0 n (is_special deleted.1) in
              deleted-absent (rw (le→leb n long_max b, u, same.attributes) at h)
        ]

    report_close-absent :
        (t : Session) (st : Status)
        → (Has c.channel_id (ids t.attributes) → ⊥)
        → Has c.channel_id (ids (report_close (t, st)).0.attributes)
        → ⊥
    report_close-absent t st g h = elim (Bool-cases (is_special st)) [
      | inl u ↦ g (rw u at h)
      | inr u ↦ g (rw u at h)
    ]

    -- After an EOF or close message for a channel of a well-formed table, the channel is no longer
    -- in the table, whether it was open on both sides or not.
    pub process_close-absent : Has c.channel_id (ids (process_close e s n).0.attributes) → ⊥
    unfolding process_close
    process_close-absent h =
        let answered = (send_channel_close e s (some n) channel_both true).0 in
        let second = delete_channel e answered n channel_both true in
        let only = delete_channel e s n channel_both true in
        elim (Bool-cases (is_channel_both (get_channel_status_by_channel_no e s n))) [
          | inl t ↦
              report_close-absent second.0 second.1
                (λ m. answered-absent (Has-delete_channel answered n c.channel_id m)) (rw t at h)
          | inr t ↦ report_close-absent only.0 only.1 deleted-absent (rw t at h)
        ]
