-- ===== src/Ssh/Message/Disconnect.antt =====
-- closeChannel on all channels: when it gets to the end of the session.
use bosh_dotnet.Prelude.{
  ℕ, zero, suc, ◌<◌, ◌≡◌, refl, ap, inl, inr, Bool, true, false, ◌||◌, Option, some, none, ltb,
  arith, lt→ltb, Bool-cases, if_either, sym, ◌∙◌,
}
use bosh_dotnet.Ssh.Environment.{Environment, IsDocumented}
use bosh_dotnet.Ssh.Status.{Status, ok, is_error, channel_write}
use bosh_dotnet.Ssh.Session.{Session}
use bosh_dotnet.Ssh.Channel.Find.{use_default, get_current_channel_no}
use bosh_dotnet.Ssh.Channel.Manage.{select_channel}
use bosh_dotnet.Ssh.Message.Handlers.{Handlers}
use bosh_dotnet.Ssh.Message.Close.{
  read_answers, finish_session, close_each, close_all, close_current, close_channel, cannot_read,
  disconnected,
}
use bosh_dotnet.Ssh.Message.Loop.{
  writable, close_each-in_time, close_each-le, select_channel-attributes,
}

abbrev pub EndsSession : Session × Status → Type 0
EndsSession (t, st) = (st ≡ ok) × (t.is_connected ≡ false)

ltb-suc : (a b : ℕ) → ltb a b ≡ ltb (suc a) (suc b)
ltb-suc a b = ground arith

neither : (a b : Bool) → a ≡ false → b ≡ false → (a || b) ≡ false
neither a b h g = rw (h, g) refl

module _ (h : Handlers) where
  -- One round for each channel closed.
  read_answers-in_time : (f closed : ℕ) (s : Session) → (read_answers h s closed f).1 ≡ ltb closed f
  unfolding read_answers
  read_answers-in_time zero closed s = ground arith
  read_answers-in_time (suc f) zero s = sym (lt→ltb 0 (suc f) (omega arith))
  read_answers-in_time (suc f) (suc closed) s = read_answers-in_time f closed _ ∙ ltb-suc closed f

  finish_session-EndsSession :
      (s : Session) (closed : ℕ)
      → closed < h.failsafe_iterations_small
      → EndsSession (finish_session h s closed)
  unfolding finish_session
  finish_session-EndsSession s closed b =
      let (t, st) = h.send_close_notification s in
      let in_time = read_answers-in_time h.failsafe_iterations_small closed t in
      let few = lt→ltb closed h.failsafe_iterations_small b in
      elim (Bool-cases (is_error st || t.protocol_send_closed)) [
        | inl u ↦ rw u (refl, refl)
        | inr u ↦ elim (Bool-cases (cannot_read t)) [
          | inl v ↦ rw (u, v) (refl, refl)
          | inr v ↦ rw (u, v, in_time, few) (refl, refl)
        ]
      ]

  module _ (e : Environment) (doc : IsDocumented e) where
    close_all-EndsSession :
        (s : Session)
        → suc (writable s.attributes) < e.failsafe_iterations_med
        → suc (writable s.attributes) < h.failsafe_iterations_small
        → EndsSession (close_all e h s)
    unfolding close_all
    close_all-EndsSession s b few =
        let selected = select_channel e s use_default channel_write in
        let same = ap writable (select_channel-attributes e doc s) in
        let closed = close_each e selected.0 selected.1 0 e.failsafe_iterations_med in
        let in_time =
          close_each-in_time e doc e.failsafe_iterations_med selected.0 selected.1 0
            (omega arith) in
        let bound = close_each-le e doc e.failsafe_iterations_med selected.0 selected.1 0 in
        rw in_time (finish_session-EndsSession closed.0 closed.1 (omega arith))

    close_current-EndsSession :
        (s : Session) (current : Option ℕ)
        → suc (writable s.attributes) < e.failsafe_iterations_med
        → suc (writable s.attributes) < h.failsafe_iterations_small
        → EndsSession (close_current e h s true current)
    unfolding close_current
    close_current-EndsSession s none b few = (refl, refl)
    close_current-EndsSession s (some n) b few = close_all-EndsSession s b few

    -- Closing all channels returns success and has shut down the network session, wherever each of
    -- the two loop limits allows a round for every channel with an open write side and two more,
    -- and whatever the peer, the network and the handlers answer.
    pub close_channel-EndsSession :
        (s : Session)
        → suc (writable s.attributes) < e.failsafe_iterations_med
        → suc (writable s.attributes) < h.failsafe_iterations_small
        → EndsSession (close_channel e h s true)
    unfolding close_channel
    close_channel-EndsSession s b few =
        let current = get_current_channel_no e s channel_write in
        if_either EndsSession s.send_closed (disconnected s, ok) (close_current e h s true current)
          (refl, refl) (close_current-EndsSession s current b few)
