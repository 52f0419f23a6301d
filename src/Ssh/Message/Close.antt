-- ===== src/Ssh/Message/Close.antt =====
-- closeChannel of ssh2_msg.c: the close of one channel or of all, and the wait for the answers.
use bosh_dotnet.Prelude.{
  ℕ, zero, suc, ◌+◌, Bool, true, false, not, ◌||◌, Option, none, some, ◌==◌, if◌then◌else◌, pos,
  ◌-ℤ◌, ltb_ℤ, min_ℤ,
}
use bosh_dotnet.Ssh.Environment.{Environment}
use bosh_dotnet.Ssh.Status.{
  Status, ok, not_inited, internal, permission, is_error, is_special, channel_write,
}
use bosh_dotnet.Ssh.Session.{Session}
use bosh_dotnet.Ssh.Channel.Find.{use_default, get_current_channel_no}
use bosh_dotnet.Ssh.Channel.Manage.{select_channel}
use bosh_dotnet.Ssh.Channel.Response.{enqueue_response, send_enqueued_response, crypt_unused}
use bosh_dotnet.Ssh.Message.{send_channel_close}
use bosh_dotnet.Ssh.Message.Handlers.{Handlers}

-- SSH2_MSG_DISCONNECT and SSH2_DISCONNECT_CONNECTION_LOST
abbrev pub msg_disconnect : ℕ
msg_disconnect = 1

abbrev pub connection_lost : ℕ
connection_lost = 10

-- sNetDisconnect
abbrev pub disconnected : Session → Session
disconnected s = record s { is_connected = false }

abbrev pub is_permission : Status → Bool
is_permission permission = true
is_permission _ = false

-- No room for 1K of packet data, or other data half read.
abbrev pub cannot_read : Session → Bool
cannot_read s =
    ltb_ℤ (pos s.receive_buf_size -ℤ pos s.receive_buf_end)
      (min_ℤ s.pending_packet_remaining (pos 1024))
    || not (s.receive_buf_pos == s.receive_buf_end)

module _ (e : Environment) where
  -- The loop that closes each channel in turn: the session, the number closed, and whether the loop
  -- ended before FAILSAFE_ITERATIONS_MED rounds.
  unfoldable pub close_each : Session → Status → ℕ → ℕ → Session × ℕ × Bool
  close_each s st closed zero =
      ((if is_error st then s else (select_channel e s use_default channel_write).0), closed, false)
  close_each s st closed (suc f) =
      let selected = select_channel e s use_default channel_write in
      let current = get_current_channel_no e selected.0 channel_write in
      let (t, st') = send_channel_close e selected.0 current channel_write true in
      let rest = close_each t st' (closed + 1) f in
      if is_error st
      then (s, closed, true)
      else if is_error selected.1
      then (selected.0, closed, true)
      else rest

module _ (h : Handlers) where
  -- The answer of the peer is read only if it is a small packet.
  read_answer : Session × Option ℕ → Session
  read_answer (s, none) = s
  read_answer (s, some n) =
      let t = record s {
        receive_buf_end = s.receive_buf_end + n;
        pending_packet_remaining = s.pending_packet_remaining -ℤ pos n;
      } in
      let left = pos t.receive_buf_size -ℤ pos t.receive_buf_end in
      if ltb_ℤ (pos 512) t.pending_packet_remaining
      then t
      else h.read_packet t (min_ℤ t.pending_packet_remaining left)

  -- One round for each channel closed, and whether FAILSAFE_ITERATIONS_SMALL was not reached.
  unfoldable pub read_answers : Session → ℕ → ℕ → Session × Bool
  unfolding read_answer
  read_answers s closed zero = (s, false)
  read_answers s zero (suc f) = (s, true)
  read_answers s (suc closed) (suc f) = read_answers (read_answer (h.read_header s)) closed f

  -- From the last open channel to the end.
  unfoldable pub finish_session : Session → ℕ → Session × Status
  unfolding read_answers
  finish_session s closed =
      let (t, st) = h.send_close_notification s in
      let (u, in_time) = read_answers t closed h.failsafe_iterations_small in
      if is_error st || t.protocol_send_closed
      then (disconnected t, ok)
      else if cannot_read t
      then (disconnected t, ok)
      else if in_time
      then (disconnected u, ok)
      else (u, internal)

module _ (e : Environment) (h : Handlers) where
  -- No channel is open: a disconnect message in place of a close.
  send_disconnect : Session → Session
  send_disconnect s =
      let enqueued = enqueue_response e s msg_disconnect 3 connection_lost 0 0 crypt_unused in
      if is_error enqueued.1 then enqueued.0 else (send_enqueued_response e enqueued.0).0

  unfoldable pub close_all : Session → Session × Status
  unfolding close_each finish_session
  close_all s =
      let selected = select_channel e s use_default channel_write in
      let (t, closed, in_time) = close_each e selected.0 selected.1 0 e.failsafe_iterations_med in
      if in_time then finish_session h t closed else (t, internal)

  close_one : Session → Option ℕ → Session × Status
  unfolding finish_session
  close_one s current =
      let (t, st) = send_channel_close e s current channel_write false in
      if is_special st
      then finish_session h t 1
      else (t, if is_permission st then permission else ok)

  unfoldable pub close_current : Session → Bool → Option ℕ → Session × Status
  unfolding send_disconnect close_all close_one
  close_current s false none = (s, not_inited)
  close_current s true none = (disconnected (record (send_disconnect s) { send_closed = true }), ok)
  close_current s true (some n) = close_all s
  close_current s false (some n) = close_one s (some n)

  unfoldable pub close_channel : Session → Bool → Session × Status
  unfolding close_current
  close_channel s close_all_channels =
      if s.send_closed
      then (disconnected s, ok)
      else close_current s close_all_channels (get_current_channel_no e s channel_write)
