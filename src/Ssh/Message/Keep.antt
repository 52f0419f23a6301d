-- ===== src/Ssh/Message/Keep.antt =====
-- Every message of ssh2_msg.c keeps the channel table well formed.
use bosh_dotnet.Prelude.{
  ℕ, ◌/◌, inl, inr, Bool, true, not, ◌&&◌, ◌||◌, List, Option, some, none, ltb, leb, if◌then◌else◌,
  Bool-cases, if_either, [], ℤ, pos, negsuc, ◌+ℤ◌, ◌-ℤ◌, ltb_ℤ,
}
use bosh_dotnet.Ssh.Environment.{Environment, IsDocumented}
use bosh_dotnet.Ssh.Status.{
  Status, ok, ok_special, bad_data, is_error, is_special, ChannelType, channel_read, channel_both,
}
use bosh_dotnet.Ssh.Session.{Session, long_max, ssh_channel}
use bosh_dotnet.Ssh.Channel.Find.{number, get_current_channel_no, get_channel_status_by_channel_no}
use bosh_dotnet.Ssh.Channel.Manage.{delete_channel, is_channel_none}
use bosh_dotnet.Ssh.Channel.Manage.Invariant.{IsWellFormed}
use bosh_dotnet.Ssh.Channel.Manage.Select.{select_channel-IsWellFormed}
use bosh_dotnet.Ssh.Channel.Manage.Delete.{delete_channel-IsWellFormed}
use bosh_dotnet.Ssh.Channel.Attributes.{windowcount, windowsize, get_channel_ext_attribute}
use bosh_dotnet.Ssh.Channel.Attributes.Stored.{setters-IsWellFormed}
use bosh_dotnet.Ssh.Channel.Response.{enqueue_channel_data}
use bosh_dotnet.Ssh.Message.{
  store_count, send_adjust, spend, handle_window_adjust, send_channel_close, notify_close,
  adjust_count, msg_window_adjust,
}
use bosh_dotnet.Ssh.Message.Handlers.{Handlers, KeepWellFormed}
use bosh_dotnet.Ssh.Message.Packet.{
  Packet, packet_of, global_request, channel_open, no_operation, disconnect, key_exchange,
  channel_data, channel_extended_data, channel_request, channel_eof, channel_close, unexpected,
}
use bosh_dotnet.Ssh.Message.Control.{
  process_close, report_close, is_channel_both, is_number, take_data, process_on_channel,
  select_named, process_named, process_packet, process_channel_control_message,
}
use bosh_dotnet.Ssh.Message.Table.{
  HaveSameTable-IsWellFormed, enqueue_channel_data-HaveSameTable, notify_close-HaveSameTable,
}

-- A session with its sending side closed has the same table.
send_closed-IsWellFormed :
    (s : Session) → IsWellFormed s → IsWellFormed (record s { send_closed = true })
send_closed-IsWellFormed s w = record {
  issued = w.issued;
  distinct = w.distinct;
  read_current = w.read_current;
  write_current = w.write_current;
  counted = w.counted;
}

report_close-IsWellFormed :
    (s : Session) (st : Status) → IsWellFormed s → IsWellFormed (report_close (s, st)).0
report_close-IsWellFormed s st w = elim (Bool-cases (is_special st)) [
  | inl t ↦ rw t (send_closed-IsWellFormed s w)
  | inr t ↦ rw t w
]

module _ (e : Environment) (doc : IsDocumented e) where
  store_count-IsWellFormed :
      (s : Session) (left : ℤ) → IsWellFormed s → IsWellFormed (store_count e s left).0
  unfolding store_count
  store_count-IsWellFormed s (negsuc n) w = w
  store_count-IsWellFormed s (pos count) w =
      (setters-IsWellFormed e s ssh_channel windowcount count [] w).2

  send_adjust-IsWellFormed :
      (s : Session) (n size : ℕ) (left : ℤ)
      → IsWellFormed s
      → IsWellFormed (send_adjust e s n size left).0
  unfolding send_adjust
  send_adjust-IsWellFormed s n size left w =
      let adjust = adjust_count size left in
      let sent = enqueue_channel_data e s msg_window_adjust n adjust in
      let refilled = left +ℤ pos adjust in
      let kept =
        HaveSameTable-IsWellFormed s sent.0
          (enqueue_channel_data-HaveSameTable e doc s msg_window_adjust n adjust) w in
      elim (Bool-cases (not (ltb (size / 2) adjust && leb adjust size))) [
        | inl t ↦ rw t w
        | inr t ↦ elim (Bool-cases (is_error sent.1)) [
          | inl u ↦ rw (t, u) kept
          | inr u ↦
              elim (Bool-cases (ltb_ℤ refilled (pos (size / 2)) || ltb_ℤ (pos size) refilled)) [
                | inl x ↦ rw (t, u, x) kept
                | inr x ↦ rw (t, u, x) (store_count-IsWellFormed sent.0 refilled kept)
              ]
        ]
      ]

  handle_window_adjust-IsWellFormed :
      (s : Session) (n length : ℕ)
      → IsWellFormed s
      → IsWellFormed (handle_window_adjust e s n length).0
  unfolding handle_window_adjust spend
  handle_window_adjust-IsWellFormed s n length w =
      let count = get_channel_ext_attribute e s windowcount in
      let size = get_channel_ext_attribute e s windowsize in
      let left = pos count.1 -ℤ pos length in
      elim (Bool-cases (not (leb n long_max && ltb length e.max_intlength))) [
        | inl t ↦ rw t w
        | inr t ↦ elim (Bool-cases (is_error count.0 || is_error size.0)) [
          | inl u ↦ rw (t, u) w
          | inr u ↦ elim (Bool-cases (not (ltb 0 count.1 && leb count.1 size.1))) [
            | inl x ↦ rw (t, u, x) w
            | inr x ↦ elim (Bool-cases (ltb_ℤ left (pos (size.1 / 2)))) [
              | inl y ↦ rw (t, u, x, y) (send_adjust-IsWellFormed s n size.1 left w)
              | inr y ↦ rw (t, u, x, y) (store_count-IsWellFormed s left w)
            ]
          ]
        ]
      ]

  pub send_channel_close-IsWellFormed :
      (s : Session) (n : Option ℕ) (ty : ChannelType) (last : Bool)
      → IsWellFormed s
      → IsWellFormed (send_channel_close e s n ty last).0
  unfolding send_channel_close
  send_channel_close-IsWellFormed s none ty last w = w
  send_channel_close-IsWellFormed s (some n) ty last w =
      let deleted = delete_channel e s n ty last in
      let kept = delete_channel-IsWellFormed e s n ty last doc w in
      elim (Bool-cases (not (leb n long_max) || is_channel_none ty)) [
        | inl t ↦ rw t w
        | inr t ↦ elim (Bool-cases (is_error deleted.1 && not (is_special deleted.1))) [
          | inl u ↦ rw (t, u) kept
          | inr u ↦
              rw (t, u)
                (HaveSameTable-IsWellFormed deleted.0
                  (notify_close e deleted.0 n (is_special deleted.1)).0
                  (notify_close-HaveSameTable e doc deleted.0 n (is_special deleted.1)) kept)
        ]
      ]

  process_close-IsWellFormed :
      (s : Session) (n : ℕ) → IsWellFormed s → IsWellFormed (process_close e s n).0
  unfolding process_close
  process_close-IsWellFormed s n w =
      let answered = (send_channel_close e s (some n) channel_both true).0 in
      elim (Bool-cases (is_channel_both (get_channel_status_by_channel_no e s n))) [
        | inl t ↦ rw t (
            report_close-IsWellFormed _ _ (
              delete_channel-IsWellFormed e answered n channel_both true doc
                (send_channel_close-IsWellFormed s (some n) channel_both true w)))
        | inr t ↦ rw t (
            report_close-IsWellFormed _ _
              (delete_channel-IsWellFormed e s n channel_both true doc w))
      ]

  select_named-IsWellFormed :
      (s : Session) (n : ℕ) → IsWellFormed s → IsWellFormed (select_named e s n).0
  unfolding select_named
  select_named-IsWellFormed s n w =
      elim (Bool-cases (is_number n (get_current_channel_no e s channel_read))) [
        | inl t ↦ rw t w
        | inr t ↦ rw t (select_channel-IsWellFormed e s (number n) channel_read w)
      ]

  module _ (h : Handlers) (keep : KeepWellFormed h) where
    take_data-IsWellFormed :
        (s : Session) (n : ℕ) (done : Status) (o : Option (ℕ × List ℕ))
        → IsWellFormed s
        → IsWellFormed (take_data e h s n done o).0
    unfolding take_data
    take_data-IsWellFormed s n done none w = w
    take_data-IsWellFormed s n done (some (length, rest)) w =
        let t = handle_window_adjust e s n length in
        if_either (λ (r : Session × Status). IsWellFormed r.0) (ltb s.receive_buf_size length)
          (s, bad_data) (t.0, if is_error t.1 then t.1 else done) w
          (handle_window_adjust-IsWellFormed s n length w)

    process_on_channel-IsWellFormed :
        (s : Session) (packet : Packet) (n : ℕ) (previous : Option ℕ) (stream : List ℕ)
        → IsWellFormed s
        → IsWellFormed (process_on_channel e h s packet n previous stream).0
    unfolding process_on_channel
    process_on_channel-IsWellFormed s channel_data n previous stream w =
        take_data-IsWellFormed s n ok (h.read_uint32 stream) w
    process_on_channel-IsWellFormed s channel_extended_data n previous stream w =
        take_data-IsWellFormed s n ok_special (h.read_uint32 stream) w
    process_on_channel-IsWellFormed s channel_request n previous stream w =
        keep.request s stream previous w
    process_on_channel-IsWellFormed s channel_eof n previous stream w =
        process_close-IsWellFormed s n w
    process_on_channel-IsWellFormed s channel_close n previous stream w =
        process_close-IsWellFormed s n w
    process_on_channel-IsWellFormed s _ n previous stream w = w

    process_named-IsWellFormed :
        (s : Session) (packet : Packet) (o : Option (ℕ × List ℕ))
        → IsWellFormed s
        → IsWellFormed (process_named e h s packet o).0
    unfolding process_named
    process_named-IsWellFormed s packet none w = w
    process_named-IsWellFormed s packet (some (n, stream)) w =
        let selected = select_named e s n in
        let kept = select_named-IsWellFormed s n w in
        let previous = get_current_channel_no e s channel_read in
        elim (Bool-cases (is_error selected.1)) [
          | inl t ↦ rw t kept
          | inr t ↦ rw t (process_on_channel-IsWellFormed selected.0 packet n previous stream kept)
        ]

    process_packet-IsWellFormed :
        (s : Session) (packet : Packet) (stream : List ℕ)
        → IsWellFormed s
        → IsWellFormed (process_packet e h s packet stream).0
    unfolding process_packet
    process_packet-IsWellFormed s global_request stream w = keep.request s stream none w
    process_packet-IsWellFormed s channel_open stream w = keep.open_request s stream w
    process_packet-IsWellFormed s no_operation stream w = w
    process_packet-IsWellFormed s disconnect stream w = keep.disconnect s stream w
    process_packet-IsWellFormed s (key_exchange n) stream w = keep.key_exchange s stream n w
    process_packet-IsWellFormed s (unexpected n) stream w = w
    process_packet-IsWellFormed s packet stream w =
        process_named-IsWellFormed s packet (h.read_uint32 stream) w

    -- Whatever control message arrives, on whatever stream, and whatever the call returns, the
    -- channel table stays well formed, if the handlers of the other files keep it so.
    pub process_channel_control_message-IsWellFormed :
        (s : Session) (packet_type : ℕ) (stream : List ℕ)
        → IsWellFormed s
        → IsWellFormed (process_channel_control_message e h s packet_type stream).0
    unfolding process_channel_control_message
    process_channel_control_message-IsWellFormed s packet_type stream w =
        process_packet-IsWellFormed s (packet_of packet_type) stream w
