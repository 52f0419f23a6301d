-- ===== src/Ssh/Tests.antt =====
-- A concrete environment, two sessions, and runs of the definitions on them.
mod Channels
mod Messages
mod Opening
mod Reading
mod Authentication
mod Login
use bosh_dotnet.Prelude.{
  ℕ, ◌+◌, ◌≤◌, ◌<◌, ◌≡◌, refl, inl, inr, Bool, true, false, List, [], ◌∷◌, ◌++◌, Option, none, some,
  length, leb, leb→le, erase_idx, if◌then◌else◌, Bool-cases, pos, arith,
}
use bosh_dotnet.Ssh.Environment.{Environment, IsDocumented, HaveSameTable}
use bosh_dotnet.Ssh.Status.{Status, ok, failed}
use bosh_dotnet.Ssh.Session.{
  Channel, Attribute, channel, other, Session, empty_response, ssh_channel, attribute_none,
}
use bosh_dotnet.Ssh.Channel.Manage.Invariant.{IsWellFormed}
use bosh_dotnet.Ssh.Message.Handlers.{Handlers, KeepWellFormed}

abbrev pub bounded_copy : Option ℕ → List ℕ → Status × List ℕ
bounded_copy none source = (ok, source)
bounded_copy (some size) source = if leb (length source) size then (ok, source) else (failed 1, [])

abbrev pub plain : Environment
plain = record {
  failsafe_iterations_max = 1000;
  failsafe_iterations_med = 50;
  max_intlength_short = 16384;
  max_intlength = 2147483391;
  attribute_copy_params = bounded_copy;
  add_session_info_composite = λ l c. (ok, l ++ channel c ∷ []);
  delete_session_info = λ l k. erase_idx l k;
  max_response_size = 16;
  wrap_packet_ssh2 = λ payload. (ok, length payload ∷ payload);
  send_packet_ssh2 = λ packet. ok;
  put_session_data = λ s. (s, ok);
}

bounded_copy-copies :
    (size : ℕ) (source : List ℕ)
    → (bounded_copy (some size) source).0 ≡ ok
    → ((bounded_copy (some size) source).1 ≡ source) × (length source ≤ size)
bounded_copy-copies size source h = elim (Bool-cases (leb (length source) size)) [
  | inl t ↦ (rw t refl, leb→le (length source) size t)
  | inr t ↦ cc (rw t at h)
]

pub plain-IsDocumented : IsDocumented plain
plain-IsDocumented = record {
  copies = bounded_copy-copies;
  adds = λ l c h. refl;
  refuses = λ l c h. absurd (h refl);
  deletes = λ l k. refl;
  flushes = λ s. record {
    attributes = refl;
    curr_read_channel = refl;
    curr_write_channel = refl;
    channel_index = refl;
  };
  keeps_empty = λ s h. h;
  keeps_packets = λ s h. (refl, refl);
}

-- The channel with that ID and number, 100 bytes of its window of 200 left.
abbrev pub open_channel : ℕ → ℕ → Channel
open_channel id n = record {
  channel_id = id;
  read_channel_no = n;
  write_channel_no = n;
  is_active = true;
  is_write_closed = false;
  cursor_pos = ssh_channel;
  cursor_moved = false;
  window_count = 100;
  window_size = 200;
  max_packet_size = 4096;
  type = 115 ∷ [];
  arg1 = [];
  arg2 = [];
}

abbrev pub session_of : List Attribute → Session
session_of attributes = record {
  attributes = attributes;
  curr_read_channel = 1;
  curr_write_channel = 1;
  channel_index = 3;
  next_channel_no = 5;
  max_packet_size = 4096;
  response = empty_response;
  is_open = true;
  send_closed = false;
  send_buf_size = 8192;
  send_buf_pos = 14;
  send_buf_start_ofs = 14;
  partial_write = false;
  buffered = [];
  sent = [];
  is_connected = true;
  is_server = true;
  terminal_width = none;
  terminal_height = none;
  limits_window = false;
  protocol_send_closed = false;
  receive_buf_size = 8192;
  receive_buf_pos = 0;
  receive_buf_end = 0;
  pending_packet_remaining = pos 0;
}

-- Channels 5 and 7, the first selected; an attribute of another kind stands before them.
abbrev pub two_channels : Session
two_channels = session_of (other 9 ∷ channel (open_channel 1 5) ∷ channel (open_channel 2 7) ∷ [])

pub two_channels-IsWellFormed : IsWellFormed two_channels
two_channels-IsWellFormed = record {
  issued = ((omega arith, omega arith), ((omega arith, omega arith), tt));
  distinct = ((λ m. ground arith), ((λ m. m), tt));
  read_current = inr (inl refl);
  write_current = inr (inl refl);
  counted = omega arith;
}

-- A request is answered with success and the peer sends nothing.
abbrev pub quiet : Handlers
quiet = record {
  failsafe_iterations_small = 10;
  read_uint32 = λ stream. elim stream [ [] ↦ none | x ∷ rest ↦ some (x, rest) ];
  process_channel_request = λ s stream previous. (s, ok);
  process_channel_open = λ s stream. (s, ok);
  get_disconnect_info = λ s stream. (s, failed 2);
  ke_dh_router = λ s stream n. (s, ok);
  send_close_notification = λ s. (s, ok);
  read_header = λ s. (s, none);
  read_packet = λ s n. s;
}

pub quiet-KeepWellFormed : KeepWellFormed quiet
quiet-KeepWellFormed = record {
  request = λ s stream previous w. w;
  open_request = λ s stream w. w;
  disconnect = λ s stream w. w;
  key_exchange = λ s stream n w. w;
}
