-- ===== src/Ssh/Message/Request.antt =====
-- processChannelRequest of ssh2_msgs.c, with the branches that KPYM_HACK and USE_SSH_EXTENDED
-- select.
pub mod Serve
use bosh_dotnet.Prelude.{
  ℕ, zero, suc, Bool, true, false, not, ◌&&◌, ◌||◌, List, [], ◌∷◌, Option, none, some, length, ltb,
  leb, ◌==◌, if◌then◌else◌,
}
use bosh_dotnet.Ssh.Environment.{Environment}
use bosh_dotnet.Ssh.Status.{Status, ok, ok_special, internal, bad_data, is_error, channel_read}
use bosh_dotnet.Ssh.Session.{Session, long_max, max_text_size, ssh_channel_type, ssh_channel_arg1}
use bosh_dotnet.Ssh.Channel.Find.{number, bytes_eq}
use bosh_dotnet.Ssh.Channel.Manage.{select_channel}
use bosh_dotnet.Ssh.Channel.Attributes.{set_channel_attribute_s}
use bosh_dotnet.Ssh.Channel.Response.{enqueue_response, send_enqueued_response, crypt_unused}
use bosh_dotnet.Ssh.Message.Handlers.{Handlers}
use bosh_dotnet.Ssh.Message.Address.{Reader, get_address_and_port}
use bosh_dotnet.Ssh.Message.Open.{and_then, number_read}

-- REQUEST_TYPE
pub data RequestType : Type 0 where
  subsystem shell exec port_forward port_forward_cancel pty window_change no_op : RequestType
  disallowed : RequestType

-- The names and types of the table.
abbrev pub request_info : List (List ℕ × RequestType)
request_info =
    -- pty-req
    (112 ∷ 116 ∷ 121 ∷ 45 ∷ 114 ∷ 101 ∷ 113 ∷ [], pty)
    -- shell
    ∷ (115 ∷ 104 ∷ 101 ∷ 108 ∷ 108 ∷ [], shell)
    -- subsystem
    ∷ (115 ∷ 117 ∷ 98 ∷ 115 ∷ 121 ∷ 115 ∷ 116 ∷ 101 ∷ 109 ∷ [], subsystem)
    -- tcpip-forward
    ∷ (116 ∷ 99 ∷ 112 ∷ 105 ∷ 112 ∷ 45 ∷ 102 ∷ 111 ∷ 114 ∷ 119 ∷ 97 ∷ 114 ∷ 100 ∷ [], port_forward)
    -- cancel-tcpip-forward
    ∷ (
      99 ∷ 97 ∷ 110 ∷ 99 ∷ 101 ∷ 108 ∷ 45 ∷ 116 ∷ 99 ∷ 112 ∷ 105 ∷ 112 ∷ 45 ∷ 102 ∷ 111 ∷ 114 ∷ 119
          ∷ 97 ∷ 114 ∷ 100 ∷ [],
      port_forward_cancel,
    )
    -- exec
    ∷ (101 ∷ 120 ∷ 101 ∷ 99 ∷ [], exec)
    -- env
    ∷ (101 ∷ 110 ∷ 118 ∷ [], no_op)
    -- exit-signal
    ∷ (101 ∷ 120 ∷ 105 ∷ 116 ∷ 45 ∷ 115 ∷ 105 ∷ 103 ∷ 110 ∷ 97 ∷ 108 ∷ [], no_op)
    -- exit-status
    ∷ (101 ∷ 120 ∷ 105 ∷ 116 ∷ 45 ∷ 115 ∷ 116 ∷ 97 ∷ 116 ∷ 117 ∷ 115 ∷ [], no_op)
    -- signal
    ∷ (115 ∷ 105 ∷ 103 ∷ 110 ∷ 97 ∷ 108 ∷ [], no_op)
    -- xon-xoff
    ∷ (120 ∷ 111 ∷ 110 ∷ 45 ∷ 120 ∷ 111 ∷ 102 ∷ 102 ∷ [], no_op)
    -- window-change
    ∷ (119 ∷ 105 ∷ 110 ∷ 100 ∷ 111 ∷ 119 ∷ 45 ∷ 99 ∷ 104 ∷ 97 ∷ 110 ∷ 103 ∷ 101 ∷ [], window_change)
    -- x11-req
    ∷ (120 ∷ 49 ∷ 49 ∷ 45 ∷ 114 ∷ 101 ∷ 113 ∷ [], disallowed)
    ∷ []

-- "subsystem"
abbrev pub subsystem_type : List ℕ
subsystem_type = 115 ∷ 117 ∷ 98 ∷ 115 ∷ 121 ∷ 115 ∷ 116 ∷ 101 ∷ 109 ∷ []

-- SSH2_MSG_CHANNEL_SUCCESS and SSH2_MSG_CHANNEL_FAILURE
abbrev pub reply_type : Bool → ℕ
reply_type true = 99
reply_type false = 100

-- The search of the table; `none` if the name is not in it.
abbrev pub request_type : List (List ℕ × RequestType) → List ℕ → Option RequestType
request_type [] name = none
request_type (entry ∷ table) name =
    let rest = request_type table name in if bytes_eq name entry.0 then some entry.1 else rest

-- A request that is denied without being looked at, by a server or by a client.
abbrev pub is_denied : Bool → Option RequestType → Bool
is_denied is_server none = true
is_denied is_server (some disallowed) = true
is_denied is_server (some no_op) = false
is_denied is_server (some ty) = not is_server

-- REQUEST_FLAG_TERMINAL
abbrev pub is_terminal : Option RequestType → Bool
is_terminal (some shell) = true
is_terminal (some subsystem) = true
is_terminal (some exec) = true
is_terminal _ = false

-- What the switch leaves: whether the request is granted, or the error that ends the call.
pub data Performed : Type 0 where
  granted : Session → Bool → Performed
  stopped : Session → Status → Performed

-- A stream that is in error returns the error again.
abbrev pub read_next : (List ℕ → Status × ℕ × List ℕ) → Status × ℕ × List ℕ → Status × ℕ × List ℕ
read_next read (st, n, rest) = if is_error st then (st, n, rest) else read rest

-- The loop of `REQUEST_PORTFORWARD_CANCEL`: clearAddressAndPort returns CRYPT_OK, so each round
-- leads to the next, and the limit is met.
cancel_forwards : Session → ℕ → Performed
cancel_forwards s zero = stopped s internal
cancel_forwards s (suc f) = cancel_forwards s f

module _ (e : Environment) where
  -- `sendChannelResponse` for a given channel number.
  unfoldable pub send_channel_response : Session → ℕ → Bool → Session × Status
  send_channel_response s n is_successful =
      if leb n long_max
      then and_then
          (enqueue_response e s (reply_type is_successful) 1 n crypt_unused crypt_unused
            crypt_unused)
          (λ t. send_enqueued_response e t)
      else (s, internal)

  -- The request is denied: the answer, and back to the previous channel.
  unfoldable pub deny : Session → ℕ → Session × Status
  unfolding send_channel_response
  deny s previous =
      let (t, st) = send_channel_response s previous false in
      let (u, st') = select_channel e t (number previous) channel_read in
      (u, if is_error st then st else st')

  -- The type and argument of a subsystem.
  name_subsystem : Session → Status × List ℕ × List ℕ → Performed
  name_subsystem s (st, name, rest) =
      let (t, st') =
        and_then (set_channel_attribute_s e s ssh_channel_type subsystem_type)
          (λ u. set_channel_attribute_s e u ssh_channel_arg1 name) in
      if is_error st || length name == 0 || ltb max_text_size (length name)
      then granted s false
      else if is_error st'
      then stopped t internal
      else granted t true

  -- The acknowledgement and the end of the call.
  unfoldable pub acknowledge : Option RequestType → Bool → ℕ → Performed → Session × Status
  unfolding send_channel_response
  acknowledge ty want_reply previous (stopped s st) = (s, st)
  acknowledge ty want_reply previous (granted s request_ok) =
      let sent = send_channel_response s previous request_ok in
      let (t, st) =
        if is_error sent.1 || not request_ok
        then select_channel e sent.0 (number previous) channel_read
        else sent in
      let done = if is_terminal ty then ok_special else ok in
      if not want_reply then (s, done) else (t, if is_error st then st else done)

  module _ (r : Reader) where
    -- The terminal size, read behind what was read before.
    read_terminal : Session → Status × ℕ × List ℕ → Performed
    read_terminal s width =
        let height = read_next r.read_uint32 width in
        granted
          (record s { terminal_width = number_read width; terminal_height = number_read height })
          true

    -- The switch on the request type.
    unfoldable pub perform : Session → Option RequestType → List ℕ → Performed
    unfolding cancel_forwards name_subsystem read_terminal
    perform s (some pty) stream =
        let (st, term, rest) = r.read_string32 stream in
        read_terminal s (read_next r.read_uint32 (st, 0, rest))
    perform s (some window_change) stream = read_terminal s (r.read_uint32 stream)
    perform s (some shell) stream = granted s true
    perform s (some no_op) stream = granted s true
    perform s (some exec) stream = granted s true
    perform s (some subsystem) stream = name_subsystem s (r.read_string32 stream)
    perform s (some port_forward) stream =
        granted s (not (is_error (get_address_and_port r stream).0))
    perform s (some port_forward_cancel) stream = cancel_forwards s e.failsafe_iterations_med
    perform s _ stream = granted s false

    -- A channel request, on the channel that was current before: `previous` is negative if there
    -- was none, and for a global request.
    unfoldable pub process_channel_request : Session → List ℕ → Option ℕ → Session × Status
    unfolding deny acknowledge perform
    process_channel_request s stream none = (s, internal)
    process_channel_request s stream (some previous) =
        let (st, name, rest) = r.read_string32 stream in
        let (st', want_reply, rest') = read_next r.read_byte (st, 0, rest) in
        let ty = request_type request_info name in
        let wants = not (want_reply == 0) in
        let denied = if wants then deny s previous else (s, ok) in
        if not (leb previous long_max)
        then (s, internal)
        else if is_error st' || length name == 0 || ltb max_text_size (length name)
        then (s, bad_data)
        else if is_denied s.is_server ty
        then denied
        else acknowledge ty wants previous (perform s ty rest')

-- The handlers with requests handled by `processChannelRequest`.
abbrev pub with_requests : Environment → Reader → Handlers → Handlers
with_requests e r h = record h { process_channel_request = process_channel_request e r }
