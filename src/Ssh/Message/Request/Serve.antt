-- ===== src/Ssh/Message/Request/Serve.antt =====
-- processChannelRequest keeps the channel table well formed.
use bosh_dotnet.Prelude.{
  ℕ, zero, suc, ◌≡◌, refl, Bool, false, not, ◌||◌, List, Option, none, some, length, ltb, leb, ◌==◌,
  if◌then◌else◌, if_either, Bool-cases, inl, inr,
}
use bosh_dotnet.Ssh.Environment.{Environment, IsDocumented}
use bosh_dotnet.Ssh.Status.{Status, ok, internal, is_error, channel_read}
use bosh_dotnet.Ssh.Session.{Session, ssh_channel_type, ssh_channel_arg1, long_max, max_text_size}
use bosh_dotnet.Ssh.Channel.Find.{number}
use bosh_dotnet.Ssh.Channel.Manage.Invariant.{IsWellFormed}
use bosh_dotnet.Ssh.Channel.Manage.Select.{select_channel-IsWellFormed}
use bosh_dotnet.Ssh.Channel.Attributes.{set_channel_attribute_s, windowcount}
use bosh_dotnet.Ssh.Channel.Attributes.Stored.{setters-IsWellFormed}
use bosh_dotnet.Ssh.Channel.Response.{enqueue_response, send_enqueued_response, crypt_unused}
use bosh_dotnet.Ssh.Message.Handlers.{Handlers, KeepWellFormed}
use bosh_dotnet.Ssh.Message.Address.{Reader}
use bosh_dotnet.Ssh.Message.Open.{and_then}
use bosh_dotnet.Ssh.Message.Open.Accept.{
  and_then-IsWellFormed, enqueued-IsWellFormed, sent-IsWellFormed,
}
use bosh_dotnet.Ssh.Message.Request.{
  RequestType, subsystem, shell, exec, port_forward, port_forward_cancel, pty, window_change, no_op,
  disallowed, Performed, granted, stopped, reply_type, subsystem_type, request_type, request_info,
  is_denied, read_next, cancel_forwards, send_channel_response, deny, name_subsystem, acknowledge,
  read_terminal, perform, process_channel_request, with_requests,
}

abbrev pub performed_session : Performed → Session
performed_session (granted s b) = s
performed_session (stopped s st) = s

cancel_forwards-session : (s : Session) (f : ℕ) → performed_session (cancel_forwards s f) ≡ s
unfolding cancel_forwards
cancel_forwards-session s zero = refl
cancel_forwards-session s (suc f) = cancel_forwards-session s f

terminal-IsWellFormed :
    (s : Session) (width height : Option ℕ)
    → IsWellFormed s
    → IsWellFormed (record s { terminal_width = width; terminal_height = height })
terminal-IsWellFormed s width height w = record {
  issued = w.issued;
  distinct = w.distinct;
  read_current = w.read_current;
  write_current = w.write_current;
  counted = w.counted;
}

module _ (e : Environment) (doc : IsDocumented e) where
  send_channel_response-IsWellFormed :
      (s : Session) (n : ℕ) (successful : Bool)
      → IsWellFormed s
      → IsWellFormed (send_channel_response e s n successful).0
  unfolding send_channel_response
  send_channel_response-IsWellFormed s n successful w =
      let sent =
        and_then
          (enqueue_response e s (reply_type successful) 1 n crypt_unused crypt_unused crypt_unused)
          (λ t. send_enqueued_response e t) in
      if_either (λ (x : Session × Status). IsWellFormed x.0) (leb n long_max) sent (s, internal)
        (and_then-IsWellFormed
          (enqueue_response e s (reply_type successful) 1 n crypt_unused crypt_unused crypt_unused)
          (λ t. send_enqueued_response e t)
          (enqueued-IsWellFormed e doc s (reply_type successful) 1 n crypt_unused crypt_unused
            crypt_unused w)
          (sent-IsWellFormed e doc))
        w

  deny-IsWellFormed :
      (s : Session) (previous : ℕ) → IsWellFormed s → IsWellFormed (deny e s previous).0
  unfolding deny
  deny-IsWellFormed s previous w =
      select_channel-IsWellFormed e (send_channel_response e s previous false).0 (number previous)
        channel_read (send_channel_response-IsWellFormed s previous false w)

  name_subsystem-IsWellFormed :
      (s : Session) (read : Status × List ℕ × List ℕ)
      → IsWellFormed s
      → IsWellFormed (performed_session (name_subsystem e s read))
  unfolding name_subsystem
  name_subsystem-IsWellFormed s (st, name, rest) w =
      let named =
        and_then (set_channel_attribute_s e s ssh_channel_type subsystem_type)
          (λ u. set_channel_attribute_s e u ssh_channel_arg1 name) in
      let kept =
        and_then-IsWellFormed (set_channel_attribute_s e s ssh_channel_type subsystem_type)
          (λ u. set_channel_attribute_s e u ssh_channel_arg1 name)
          (setters-IsWellFormed e s ssh_channel_type windowcount 0 subsystem_type w).1
          (λ u v. (setters-IsWellFormed e u ssh_channel_arg1 windowcount 0 name v).1) in
      elim (Bool-cases (is_error st || length name == 0 || ltb max_text_size (length name))) [
        | inl t ↦ rw t w
        | inr t ↦ elim (Bool-cases (is_error named.1)) [
          | inl u ↦ rw (t, u) kept
          | inr u ↦ rw (t, u) kept
        ]
      ]

  acknowledge-IsWellFormed :
      (ty : Option RequestType) (wants : Bool) (previous : ℕ) (p : Performed)
      → IsWellFormed (performed_session p)
      → IsWellFormed (acknowledge e ty wants previous p).0
  unfolding acknowledge
  acknowledge-IsWellFormed ty wants previous (stopped s st) w = w
  acknowledge-IsWellFormed ty wants previous (granted s successful) w =
      let sent = send_channel_response e s previous successful in
      let kept = send_channel_response-IsWellFormed s previous successful w in
      elim (Bool-cases (not wants)) [
        | inl t ↦ rw t w
        | inr t ↦ elim (Bool-cases (is_error sent.1 || not successful)) [
          | inl u ↦
              rw (t, u) (select_channel-IsWellFormed e sent.0 (number previous) channel_read kept)
          | inr u ↦ rw (t, u) kept
        ]
      ]

  module _ (r : Reader) where
    perform-IsWellFormed :
        (s : Session) (ty : Option RequestType) (stream : List ℕ)
        → IsWellFormed s
        → IsWellFormed (performed_session (perform e r s ty stream))
    unfolding perform read_terminal
    perform-IsWellFormed s none stream w = w
    perform-IsWellFormed s (some pty) stream w = terminal-IsWellFormed s _ _ w
    perform-IsWellFormed s (some window_change) stream w = terminal-IsWellFormed s _ _ w
    perform-IsWellFormed s (some subsystem) stream w =
        name_subsystem-IsWellFormed s (r.read_string32 stream) w
    perform-IsWellFormed s (some port_forward_cancel) stream w =
        rw (cancel_forwards-session s e.failsafe_iterations_med) w
    perform-IsWellFormed s (some shell) stream w = w
    perform-IsWellFormed s (some exec) stream w = w
    perform-IsWellFormed s (some no_op) stream w = w
    perform-IsWellFormed s (some port_forward) stream w = w
    perform-IsWellFormed s (some disallowed) stream w = w

    -- Whatever a channel request says, and whatever the call returns, the channel table stays well
    -- formed.
    pub process_channel_request-IsWellFormed :
        (s : Session) (stream : List ℕ) (previous : Option ℕ)
        → IsWellFormed s
        → IsWellFormed (process_channel_request e r s stream previous).0
    unfolding process_channel_request
    process_channel_request-IsWellFormed s stream none w = w
    process_channel_request-IsWellFormed s stream (some previous) w =
        let read = r.read_string32 stream in
        let name = read.1 in
        let byte = read_next r.read_byte (read.0, 0, read.2) in
        let ty = request_type request_info name in
        let wants = not (byte.1 == 0) in
        let denied = if wants then deny e s previous else (s, ok) in
        let served = acknowledge e ty wants previous (perform e r s ty byte.2) in
        let P : Session × Status → Type 0 = λ x. IsWellFormed x.0 in
        elim (Bool-cases (not (leb previous long_max))) [
          | inl t ↦ rw t w
          | inr t ↦
              elim (Bool-cases
                (is_error byte.0 || length name == 0 || ltb max_text_size (length name))) [
                  | inl u ↦ rw (t, u) w
                  | inr u ↦
                      rw (t, u)
                        (if_either P (is_denied s.is_server ty) denied served
                          (if_either P wants (deny e s previous) (s, ok)
                            (deny-IsWellFormed s previous w) w)
                          (acknowledge-IsWellFormed ty wants previous (perform e r s ty byte.2)
                            (perform-IsWellFormed s ty byte.2 w)))
                ]
        ]

    -- Handlers that keep the channel table well formed still do so with channel requests handled by
    -- `processChannelRequest`.
    pub with_requests-KeepWellFormed :
        (h : Handlers) → KeepWellFormed h → KeepWellFormed (with_requests e r h)
    with_requests-KeepWellFormed h keep = record {
      request = process_channel_request-IsWellFormed;
      open_request = keep.open_request;
      disconnect = keep.disconnect;
      key_exchange = keep.key_exchange;
    }
