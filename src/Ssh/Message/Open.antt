-- ===== src/Ssh/Message/Open.antt =====
-- processChannelOpen of ssh2_msgs.c, with the branches that KPYM_HACK and USE_SSH_EXTENDED select.
pub mod Accept
pub mod Activate
pub mod Opened
pub mod Accepted
use bosh_dotnet.Prelude.{
  ℕ, Bool, true, false, not, ◌&&◌, ◌||◌, ◌-◌, List, [], ◌∷◌, Option, none, some, length, ltb, leb,
  ◌==◌, if◌then◌else◌,
}
use bosh_dotnet.Ssh.Environment.{Environment}
use bosh_dotnet.Ssh.Status.{Status, ok, internal, permission, bad_data, is_error, channel_both}
use bosh_dotnet.Ssh.Session.{Session, long_max, max_text_size, extra_packet_size}
use bosh_dotnet.Ssh.Channel.Find.{number, bytes_eq}
use bosh_dotnet.Ssh.Channel.Manage.{add_channel, delete_channel, select_channel, session_type}
use bosh_dotnet.Ssh.Channel.Attributes.{active, windowcount, windowsize, set_channel_ext_attribute}
use bosh_dotnet.Ssh.Channel.Response.{enqueue_response, send_enqueued_response}
use bosh_dotnet.Ssh.Message.{get_window_size}
use bosh_dotnet.Ssh.Message.Address.{Reader, get_address_and_port}
use bosh_dotnet.Ssh.Message.Handlers.{Handlers}

-- SSH2_MSG_CHANNEL_OPEN_CONFIRMATION, SSH2_MSG_CHANNEL_OPEN_FAILURE and
-- SSH_OPEN_ADMINISTRATIVELY_PROHIBITED
abbrev pub msg_open_confirmation : ℕ
msg_open_confirmation = 91

abbrev pub msg_open_failure : ℕ
msg_open_failure = 92

abbrev pub administratively_prohibited : ℕ
administratively_prohibited = 1

-- "direct-tcpip"
abbrev pub forwarding_type : List ℕ
forwarding_type = 100 ∷ 105 ∷ 114 ∷ 101 ∷ 99 ∷ 116 ∷ 45 ∷ 116 ∷ 99 ∷ 112 ∷ 105 ∷ 112 ∷ []

-- A step that is taken only if the status before it is CRYPT_OK.
abbrev pub and_then : Session × Status → (Session → Session × Status) → Session × Status
and_then (s, st) step = if is_error st then (s, st) else step s

-- The number of the channel; `none` for the error code of a failed read.
abbrev pub number_read : Status × ℕ × List ℕ → Option ℕ
number_read (st, n, rest) = if is_error st then none else some n

abbrev pub smaller : ℕ → ℕ → ℕ
smaller a b = if ltb a b then a else b

module _ (e : Environment) where
  -- `sendOpenResponseFailed`; all its calls ignore the status.
  unfoldable pub send_open_response_failed : Session → Option ℕ → Session
  send_open_response_failed s none = s
  send_open_response_failed s (some n) =
      let enqueued = enqueue_response e s msg_open_failure 4 n administratively_prohibited 0 0 in
      if not (leb n long_max)
      then s
      else if is_error enqueued.1
      then enqueued.0
      else (send_enqueued_response e enqueued.0).0

  -- The initial window count is the window size, and the channel is selected.
  pub fill_window : Session → ℕ → Session × Status
  fill_window s n =
      and_then (set_channel_ext_attribute e s windowcount (get_window_size e s))
        (λ t. select_channel e t (number n) channel_both)

  pub size_window : Session → ℕ → Session × Status
  unfolding fill_window
  size_window s n =
      and_then (set_channel_ext_attribute e s windowsize (get_window_size e s))
        (λ t. fill_window t n)

  -- From the end of the confirmation on: the channel becomes active, gets its window and is
  -- selected.
  unfoldable pub activate : Session → ℕ → Session × Status
  unfolding size_window
  activate s n = and_then (set_channel_ext_attribute e s active 1) (λ t. size_window t n)

  -- From the open confirmation on. A channel whose confirmation is not sent is deleted.
  unfoldable pub confirm_open : Session → ℕ → ℕ → Session × Status
  unfolding activate
  confirm_open s n max_packet_size =
      let enqueued =
        enqueue_response e s msg_open_confirmation 4 n n (get_window_size e s) max_packet_size in
      let (t, st) = and_then enqueued (λ u. send_enqueued_response e u) in
      let cleaned = (delete_channel e t n channel_both true).0 in
      if is_error st then (cleaned, st) else activate t n

  -- From the addition of the channel on. A text pointer with length 0 fails a REQUIRES.
  unfoldable pub add_opened : Session → Option ℕ → ℕ → List ℕ → Bool → List ℕ → Session × Status
  unfolding confirm_open send_open_response_failed
  add_opened s none max_packet_size type forwards arg1 = (s, internal)
  add_opened s (some n) max_packet_size type forwards arg1 =
      let (t, st) =
        if forwards && length arg1 == 0
        then (s, internal)
        else add_channel e s n max_packet_size type arg1 in
      if is_error st
      then (send_open_response_failed t (some n), st)
      else confirm_open t n max_packet_size

  module _ (r : Reader) where
    -- From the host and port of a forwarded connection on.
    unfoldable pub open_on : Session → List ℕ → Bool → Option ℕ → ℕ → List ℕ → Session × Status
    unfolding add_opened
    open_on s type forwards n max_packet_size stream =
        let (st, address) = if forwards then get_address_and_port r stream else (ok, []) in
        let size = smaller max_packet_size (s.receive_buf_size - extra_packet_size) in
        if is_error st
        then (send_open_response_failed s n, st)
        else if not s.is_server
        then (send_open_response_failed s n, permission)
        else add_opened s n size type forwards address

    -- From the channel number on. An error that the stream is in stays until KPYM_HACK clears it,
    -- behind the window size: a read in between takes nothing.
    unfoldable pub open_with : Session → List ℕ → Bool → List ℕ → Session × Status
    unfolding open_on
    open_with s type forwards stream =
        let sender = r.read_uint32 stream in
        let after = if is_error sender.0 then sender.2 else (r.read_uint32 sender.2).2 in
        let size = r.read_uint32 after in
        if is_error size.0
        then (s, size.0)
        else if ltb size.1 1024 || ltb 1048576 size.1
        then (send_open_response_failed s (number_read sender), bad_data)
        else open_on s type forwards (number_read sender) size.1 size.2

    unfoldable pub process_channel_open : Session → List ℕ → Session × Status
    unfolding open_with
    process_channel_open s stream =
        let (st, type, rest) = r.read_string32 stream in
        if is_error st || length type == 0 || ltb max_text_size (length type)
        then (s, bad_data)
        else if bytes_eq type session_type
        then open_with s type false rest
        else if bytes_eq type forwarding_type
        then open_with s type true rest
        else (s, bad_data)

-- The handlers with the channel open message handled by `processChannelOpen`.
abbrev pub with_open : Environment → Reader → Handlers → Handlers
with_open e r h = record h { process_channel_open = process_channel_open e r }
