-- ===== src/Ssh/Channel/Manage.antt =====
-- Selecting, adding, creating and deleting channels: the management functions of ssh2_chn.c.
pub mod Invariant
pub mod Select
pub mod Delete
pub mod Removal
pub mod Ends
pub mod LastChannel
pub mod Insert
pub mod Add
pub mod Create
use bosh_dotnet.Prelude.{
  ℕ, zero, suc, ◌+◌, ◌-◌, Bool, true, false, not, ◌&&◌, ◌||◌, List, [], ◌∷◌, Option, none, some,
  length, set, ltb, leb, ◌==◌, if◌then◌else◌,
}
use bosh_dotnet.Ssh.Environment.{Environment}
use bosh_dotnet.Ssh.Status.{
  Status, ok, ok_special, not_inited, internal, permission, overflow, not_found, duplicate,
  is_error, ChannelType, channel_none, channel_read, channel_write,
}
use bosh_dotnet.Ssh.Session.{
  Channel, channel, channels, Session, unused_channel_id, long_max, max_text_size, ssh_max_channels,
  extra_packet_size, attribute_none,
}
use bosh_dotnet.Ssh.Channel.Find.{
  ChannelRef, use_default, number, in_range, is_some, is_channel_active, find_channel_attr,
  find_channel_by_channel_no,
}

-- The switch of `selectChannel`, and the packet size that goes with the selection.
unfoldable pub set_current : ChannelType → Channel → Session → Session
set_current channel_read c s = record s {
  curr_read_channel = c.channel_id;
  max_packet_size = c.max_packet_size;
}
set_current channel_write c s = record s {
  curr_write_channel = c.channel_id;
  max_packet_size = c.max_packet_size;
}
set_current _ c s = record s {
  curr_read_channel = c.channel_id;
  curr_write_channel = c.channel_id;
  max_packet_size = c.max_packet_size;
}

abbrev pub is_channel_none : ChannelType → Bool
is_channel_none channel_none = true
is_channel_none _ = false

-- A write through the pointer to the channel at that position.
abbrev pub store : Session → ℕ → Channel → Session
store s position c = record s { attributes = set s.attributes position (channel c) }

-- Forget a current channel that is the given one.
abbrev pub unselect : ℕ → ℕ → ℕ
unselect gone current = if gone == current then unused_channel_id else current

abbrev pub done_if : Bool → Status
done_if true = ok
done_if false = ok_special

-- `memset` to zero and the fields that `addChannel` fills before the copies.
abbrev pub new_channel : ℕ → ℕ → ℕ → Channel
new_channel id n max_packet_size = record {
  channel_id = id;
  read_channel_no = n;
  write_channel_no = n;
  is_active = false;
  is_write_closed = false;
  cursor_pos = attribute_none;
  cursor_moved = false;
  window_count = 0;
  window_size = 0;
  max_packet_size = max_packet_size;
  type = [];
  arg1 = [];
  arg2 = [];
}

-- The write side only: the channel stays, half-closed.
unfoldable pub write_closed : Session → ℕ → Channel → Session
write_closed s position c =
    let closed = store s position (record c { is_write_closed = true }) in
    record closed { curr_write_channel = unselect c.channel_id s.curr_write_channel }

abbrev pub first_index : Session → Session
first_index s =
    if leb s.channel_index unused_channel_id
    then record s { channel_index = unused_channel_id + 1 }
    else s

-- "session"
abbrev pub session_type : List ℕ
session_type = 115 ∷ 101 ∷ 115 ∷ 115 ∷ 105 ∷ 111 ∷ 110 ∷ []

module _ (e : Environment) where
  select_found : Session → ChannelType → Option (ℕ × Channel) → Session × Status
  unfolding set_current
  select_found s ty none = (s, not_found)
  select_found s ty (some (position, c)) =
      if not c.is_active && not (is_channel_none ty)
      then (s, not_inited)
      else (set_current ty c s, ok)

  unfoldable pub select_channel : Session → ChannelRef → ChannelType → Session × Status
  unfolding select_found
  select_channel s ref ty =
      if in_range ref then select_found s ty (find_channel_by_channel_no e s ref) else (s, internal)

  -- The two copies; the second is made only if there is an argument and the first succeeded.
  copy_arg : Channel → List ℕ → Channel × Status
  copy_arg c [] = (c, ok)
  copy_arg c (x ∷ arg1) =
      let copied = e.attribute_copy_params (some max_text_size) (x ∷ arg1) in
      (record c { arg1 = copied.1 }, copied.0)

  fill_channel : Channel → List ℕ → List ℕ → Channel × Status
  unfolding copy_arg
  fill_channel c type arg1 =
      let copied = e.attribute_copy_params (some max_text_size) type in
      let typed = record c { type = copied.1 } in
      if is_error copied.0 then (typed, copied.0) else copy_arg typed arg1

  -- From the allocation of the ID to the end.
  pub insert_channel : Session → ℕ → ℕ → List ℕ → List ℕ → Session × Status
  unfolding fill_channel
  insert_channel s n max_packet_size type arg1 =
      let numbered = record s { channel_index = s.channel_index + 1 } in
      let filled = fill_channel (new_channel s.channel_index n max_packet_size) type arg1 in
      let added = e.add_session_info_composite s.attributes filled.0 in
      if is_error filled.1
      then (numbered, filled.1)
      else if is_error added.0
      then (record numbered { attributes = added.1 }, added.0)
      else select_channel (record numbered { attributes = added.1 }) (number n) channel_none

  abbrev pub add_arguments_fit : ℕ → ℕ → List ℕ → List ℕ → Bool
  add_arguments_fit n max_packet_size type arg1 =
      leb n long_max
      && leb 1024 max_packet_size
      && ltb max_packet_size e.max_intlength
      && ltb 0 (length type)
      && ltb (length type) e.max_intlength_short
      && ltb (length arg1) e.max_intlength_short

  -- An empty `arg1` is the null pointer.
  unfoldable pub add_channel : Session → ℕ → ℕ → List ℕ → List ℕ → Session × Status
  unfolding insert_channel
  add_channel s n max_packet_size type arg1 =
      if not (add_arguments_fit n max_packet_size type arg1)
      then (s, internal)
      else if is_some (find_channel_by_channel_no e s (number n))
      then (s, duplicate)
      else if not (ltb (length s.attributes) e.failsafe_iterations_max)
      then (first_index s, internal)
      else if ltb ssh_max_channels (length (channels s.attributes))
      then (first_index s, overflow)
      else insert_channel (first_index s) n max_packet_size type arg1

  -- The search for a number that no channel has: the number it stops at, and whether it stopped
  -- before FAILSAFE_ITERATIONS_MED rounds.
  unfoldable pub skip_used : Session → ℕ → ℕ → ℕ × Bool
  skip_used s zero n = (n, false)
  skip_used s (suc f) n =
      let onward = skip_used s f (n + 1) in
      if is_some (find_channel_by_channel_no e s (number n)) then onward else (n, true)

  unfoldable pub create_channel : Session → Session × Status
  unfolding skip_used
  create_channel s =
      let (n, in_time) = skip_used s e.failsafe_iterations_med s.next_channel_no in
      let advanced = record s { next_channel_no = n + 1 } in
      if in_time
      then add_channel advanced n (s.send_buf_size - extra_packet_size) session_type []
      else (record s { next_channel_no = n }, internal)

  close_write : Session → ℕ → Channel → Session × Status
  unfolding write_closed
  close_write s position c =
      let t = write_closed s position c in
      if c.is_write_closed then (s, internal) else (t, done_if (is_channel_active e t c.channel_id))

  unfoldable pub removed : Session → ℕ → Channel → Session
  removed s position c = record s {
    attributes = e.delete_session_info s.attributes position;
    curr_read_channel = unselect c.channel_id s.curr_read_channel;
    curr_write_channel = unselect c.channel_id s.curr_write_channel;
  }

  remove : Session → ℕ → Channel → Session × Status
  unfolding removed
  remove s position c =
      let t = removed s position c in (t, done_if (is_channel_active e t unused_channel_id))

  delete_side : Session → ChannelType → ℕ → Channel → Session × Status
  unfolding close_write remove
  delete_side s channel_write position c = close_write s position c
  delete_side s _ position c = remove s position c

  delete_found : Session → ChannelType → Bool → Option (ℕ × Channel) → Session × Status
  unfolding delete_side
  delete_found s ty delete_last none =
      (s, if is_channel_active e s unused_channel_id then not_found else ok_special)
  delete_found s ty delete_last (some (position, c)) =
      if not delete_last && not (is_channel_active e s c.channel_id)
      then (s, permission)
      else delete_side s ty position c

  unfoldable pub delete_channel : Session → ℕ → ChannelType → Bool → Session × Status
  unfolding delete_found
  delete_channel s n ty delete_last =
      if not (leb n long_max) || is_channel_none ty
      then (s, internal)
      else delete_found s ty delete_last (find_channel_attr e s (number n))
