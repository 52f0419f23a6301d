-- ===== src/Ssh/Message/Control.antt =====
-- processChannelControlMessage of ssh2_msg.c, with the branches that KPYM_HACK selects.
use bosh_dotnet.Prelude.{
  ℕ, Bool, true, false, not, ◌&&◌, List, Option, none, some, ltb, ◌==◌, if◌then◌else◌,
}
use bosh_dotnet.Ssh.Environment.{Environment}
use bosh_dotnet.Ssh.Status.{
  Status, ok, ok_special, complete, bad_data, envelope_resource, is_error, is_special, ChannelType,
  channel_read, channel_both,
}
use bosh_dotnet.Ssh.Session.{Session}
use bosh_dotnet.Ssh.Channel.Find.{number, get_current_channel_no, get_channel_status_by_channel_no}
use bosh_dotnet.Ssh.Channel.Manage.{select_channel, delete_channel}
use bosh_dotnet.Ssh.Message.{handle_window_adjust, send_channel_close}
use bosh_dotnet.Ssh.Message.Handlers.{Handlers}
use bosh_dotnet.Ssh.Message.Packet.{
  Packet, packet_of, global_request, channel_open, no_operation, disconnect, key_exchange,
  channel_data, channel_extended_data, channel_request, channel_eof, channel_close, unexpected,
}

abbrev pub is_channel_both : ChannelType → Bool
is_channel_both channel_both = true
is_channel_both _ = false

-- The current channel has this number; UNUSED_CHANNEL_NO is no channel number.
abbrev pub is_number : ℕ → Option ℕ → Bool
is_number n none = false
is_number n (some current) = n == current

-- An error status is returned as it is, anything else asks for the next packet.
abbrev pub error_or_next : Session × Status → Session × Status
error_or_next (s, st) = (s, if is_error st && not (is_special st) then st else ok_special)

-- The end of the close branch: the last channel closes the connection.
abbrev pub report_close : Session × Status → Session × Status
report_close (s, st) =
    if is_special st then (record s { send_closed = true }, complete) else (s, ok_special)

module _ (e : Environment) where
  -- The EOF and close messages.
  unfoldable pub process_close : Session → ℕ → Session × Status
  process_close s n =
      let answered = (send_channel_close e s (some n) channel_both true).0 in
      report_close (
        if is_channel_both (get_channel_status_by_channel_no e s n)
        then delete_channel e answered n channel_both true
        else delete_channel e s n channel_both true)

  -- Make the channel that the message names the current one.
  unfoldable pub select_named : Session → ℕ → Session × Status
  select_named s n =
      if is_number n (get_current_channel_no e s channel_read)
      then (s, ok)
      else select_channel e s (number n) channel_read

module _ (e : Environment) (h : Handlers) where
  -- The payload length of a data message, and the window it takes.
  unfoldable pub take_data : Session → ℕ → Status → Option (ℕ × List ℕ) → Session × Status
  take_data s n done none = (s, bad_data)
  take_data s n done (some (length, rest)) =
      let (t, st) = handle_window_adjust e s n length in
      if ltb s.receive_buf_size length then (s, bad_data) else (t, if is_error st then st else done)

  -- The second switch, on the channel that the message names.
  unfoldable pub process_on_channel : Session → Packet → ℕ → Option ℕ → List ℕ → Session × Status
  unfolding take_data process_close
  process_on_channel s channel_data n previous stream = take_data s n ok (h.read_uint32 stream)
  process_on_channel s channel_extended_data n previous stream =
      take_data s n ok_special (h.read_uint32 stream)
  process_on_channel s channel_request n previous stream =
      error_or_next (h.process_channel_request s stream previous)
  process_on_channel s channel_eof n previous stream = process_close e s n
  process_on_channel s channel_close n previous stream = process_close e s n
  process_on_channel s _ n previous stream = (s, ok_special)

  unfoldable pub process_named : Session → Packet → Option (ℕ × List ℕ) → Session × Status
  unfolding process_on_channel select_named
  process_named s packet none = (s, bad_data)
  process_named s packet (some (n, stream)) =
      let (t, st) = select_named e s n in
      let done = process_on_channel t packet n (get_current_channel_no e s channel_read) stream in
      if is_error st then (t, bad_data) else done

  -- The first switch.
  unfoldable pub process_packet : Session → Packet → List ℕ → Session × Status
  unfolding process_named
  process_packet s global_request stream = error_or_next (h.process_channel_request s stream none)
  process_packet s channel_open stream =
      let (t, st) = h.process_channel_open s stream in
      (t, if is_error st then st else envelope_resource)
  process_packet s no_operation stream = (s, ok_special)
  process_packet s disconnect stream = h.get_disconnect_info s stream
  process_packet s (key_exchange n) stream =
      let (t, st) = h.ke_dh_router s stream n in (t, if is_error st then st else ok_special)
  process_packet s (unexpected n) stream = (s, bad_data)
  process_packet s packet stream = process_named s packet (h.read_uint32 stream)

  unfoldable pub process_channel_control_message : Session → ℕ → List ℕ → Session × Status
  unfolding process_packet
  process_channel_control_message s packet_type stream =
      process_packet s (packet_of packet_type) stream
