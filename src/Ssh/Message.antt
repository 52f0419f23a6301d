-- ===== src/Ssh/Message.antt =====
-- The utility functions of ssh2_msg.c: the flow-control window and the close of one channel.
pub mod Handlers
pub mod Packet
pub mod Control
pub mod Close
pub mod Table
pub mod Window
pub mod Refill
pub mod Report
pub mod Loop
pub mod Disconnect
pub mod Keep
pub mod Gone
pub mod Address
pub mod Open
pub mod Request
use bosh_dotnet.Prelude.{
  ℕ, ◌/◌, Bool, true, false, not, ◌&&◌, ◌||◌, Option, none, some, ltb, leb, if◌then◌else◌, ℤ, pos,
  negsuc, pos_part, ◌+ℤ◌, ◌-ℤ◌, ltb_ℤ,
}
use bosh_dotnet.Ssh.Environment.{Environment}
use bosh_dotnet.Ssh.Status.{
  Status, ok, ok_special, internal, invalid, is_error, is_special, ChannelType, channel_none,
}
use bosh_dotnet.Ssh.Session.{Session, long_max}
use bosh_dotnet.Ssh.Channel.Manage.{delete_channel, is_channel_none}
use bosh_dotnet.Ssh.Channel.Attributes.{
  windowcount, windowsize, get_channel_ext_attribute, set_channel_ext_attribute,
}
use bosh_dotnet.Ssh.Channel.Response.{
  enqueue_response, enqueue_channel_data, send_enqueued_response, crypt_unused,
}

-- SSH2_MSG_CHANNEL_WINDOW_ADJUST and SSH2_MSG_CHANNEL_CLOSE
abbrev pub msg_window_adjust : ℕ
msg_window_adjust = 93

abbrev pub msg_channel_close : ℕ
msg_channel_close = 97

-- The bytes to add that the window adjust message announces.
unfoldable pub adjust_count : ℕ → ℤ → ℕ
adjust_count size left =
    if ltb_ℤ left (pos 0) || not (ltb_ℤ left (pos size)) then size else pos_part (pos size -ℤ left)

-- A failed ENSURES is an internal error.
abbrev pub ensured : Status → Status
ensured st = if is_error st then internal else ok

module _ (e : Environment) where
  -- The last step of `handleWindowAdjust`; a negative count fails the range check.
  unfoldable pub store_count : Session → ℤ → Session × Status
  store_count s (negsuc n) = (s, internal)
  store_count s (pos count) =
      let (t, st) = set_channel_ext_attribute e s windowcount count in (t, ensured st)

  unfoldable pub send_adjust : Session → ℕ → ℕ → ℤ → Session × Status
  unfolding store_count adjust_count
  send_adjust s n size left =
      let adjust = adjust_count size left in
      let sent = enqueue_channel_data e s msg_window_adjust n adjust in
      let refilled = left +ℤ pos adjust in
      if not (ltb (size / 2) adjust && leb adjust size)
      then (s, internal)
      else if is_error sent.1
      then sent
      else if ltb_ℤ refilled (pos (size / 2)) || ltb_ℤ (pos size) refilled
      then (sent.0, invalid)
      else store_count sent.0 refilled

  unfoldable pub spend : Session → ℕ → ℕ → ℤ → Session × Status
  unfolding send_adjust
  spend s n size left =
      if ltb_ℤ left (pos (size / 2)) then send_adjust s n size left else store_count s left

  unfoldable pub handle_window_adjust : Session → ℕ → ℕ → Session × Status
  unfolding spend
  handle_window_adjust s n length =
      let count = get_channel_ext_attribute e s windowcount in
      let size = get_channel_ext_attribute e s windowsize in
      if not (leb n long_max && ltb length e.max_intlength)
      then (s, internal)
      else if is_error count.0 || is_error size.0
      then (s, internal)
      else if not (ltb 0 count.1 && leb count.1 size.1)
      then (s, internal)
      else spend s n size.1 (pos count.1 -ℤ pos length)

  -- The close notification of `sendChannelClose`, once the channel is deleted. Error reporting is
  -- off during the send, which changes no state of the model.
  unfoldable pub notify_close : Session → ℕ → Bool → Session × Status
  notify_close s n is_last =
      let enqueued =
        enqueue_response e s msg_channel_close 1 n crypt_unused crypt_unused crypt_unused in
      let sent = send_enqueued_response e enqueued.0 in
      if is_error enqueued.1 then enqueued else (sent.0, if is_last then ok_special else sent.1)

  -- `none` is a negative channel number.
  unfoldable pub send_channel_close : Session → Option ℕ → ChannelType → Bool → Session × Status
  unfolding notify_close
  send_channel_close s none ty close_last = (s, internal)
  send_channel_close s (some n) ty close_last =
      let deleted = delete_channel e s n ty close_last in
      if not (leb n long_max) || is_channel_none ty
      then (s, internal)
      else if is_error deleted.1 && not (is_special deleted.1)
      then deleted
      else notify_close deleted.0 n (is_special deleted.1)

  -- MAX_WINDOW_SIZE is MAX_INTLENGTH - 8192.
  unfoldable pub get_window_size : Session → ℕ
  get_window_size s =
      if s.limits_window then 16777216 else pos_part (pos e.max_intlength -ℤ pos 8192)
