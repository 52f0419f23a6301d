-- ===== src/Ssh/Message/Open/Accept.antt =====
-- processChannelOpen keeps the channel table well formed, and so does the dispatch that calls it.
use bosh_dotnet.Prelude.{
  ℕ, ◌-◌, Bool, true, false, not, ◌&&◌, ◌||◌, List, [], Option, none, some, length, ltb, leb, ◌==◌,
  if◌then◌else◌, Bool-cases, inl, inr, if_either,
}
use bosh_dotnet.Ssh.Environment.{Environment, IsDocumented}
use bosh_dotnet.Ssh.Status.{Status, ok, internal, permission, is_error, channel_both}
use bosh_dotnet.Ssh.Session.{Session, ssh_channel, long_max, max_text_size, extra_packet_size}
use bosh_dotnet.Ssh.Channel.Find.{number, bytes_eq}
use bosh_dotnet.Ssh.Channel.Manage.{add_channel, select_channel, session_type}
use bosh_dotnet.Ssh.Channel.Manage.Invariant.{IsWellFormed}
use bosh_dotnet.Ssh.Channel.Manage.Add.{add_channel-IsWellFormed}
use bosh_dotnet.Ssh.Channel.Manage.Delete.{delete_channel-IsWellFormed}
use bosh_dotnet.Ssh.Channel.Manage.Select.{select_channel-IsWellFormed}
use bosh_dotnet.Ssh.Channel.Attributes.{
  active, windowcount, windowsize, SshAttribute, set_channel_ext_attribute,
}
use bosh_dotnet.Ssh.Channel.Attributes.Stored.{setters-IsWellFormed}
use bosh_dotnet.Ssh.Channel.Response.{enqueue_response, send_enqueued_response}
use bosh_dotnet.Ssh.Channel.Response.Enqueue.{enqueue_response-HaveSameTable}
use bosh_dotnet.Ssh.Message.{get_window_size}
use bosh_dotnet.Ssh.Message.Handlers.{Handlers, KeepWellFormed}
use bosh_dotnet.Ssh.Message.Table.{HaveSameTable-IsWellFormed, send_enqueued_response-HaveSameTable}
use bosh_dotnet.Ssh.Message.Address.{Reader, get_address_and_port}
use bosh_dotnet.Ssh.Message.Open.{
  and_then, smaller, number_read, send_open_response_failed, fill_window, size_window, activate,
  confirm_open, add_opened, open_on, open_with, process_channel_open, with_open,
  msg_open_confirmation, msg_open_failure, administratively_prohibited, forwarding_type,
}

pub and_then-IsWellFormed :
    (r : Session × Status) (step : Session → Session × Status)
    → IsWellFormed r.0
    → ((t : Session) → IsWellFormed t → IsWellFormed (step t).0)
    → IsWellFormed (and_then r step).0
and_then-IsWellFormed r step w f = elim (Bool-cases (is_error r.1)) [
  | inl t ↦ rw t w
  | inr t ↦ rw t (f r.0 w)
]

module _ (e : Environment) (doc : IsDocumented e) where
  pub enqueued-IsWellFormed :
      (s : Session) (type k n p q r : ℕ)
      → IsWellFormed s
      → IsWellFormed (enqueue_response e s type k n p q r).0
  enqueued-IsWellFormed s type k n p q r w =
      HaveSameTable-IsWellFormed s (enqueue_response e s type k n p q r).0
        (enqueue_response-HaveSameTable e s type k n p q r) w

  pub sent-IsWellFormed :
      (s : Session) → IsWellFormed s → IsWellFormed (send_enqueued_response e s).0
  sent-IsWellFormed s w =
      HaveSameTable-IsWellFormed s (send_enqueued_response e s).0
        (send_enqueued_response-HaveSameTable e doc s) w

  send_open_response_failed-IsWellFormed :
      (s : Session) (n : Option ℕ) → IsWellFormed s → IsWellFormed (send_open_response_failed e s n)
  unfolding send_open_response_failed
  send_open_response_failed-IsWellFormed s none w = w
  send_open_response_failed-IsWellFormed s (some n) w =
      let enqueued = enqueue_response e s msg_open_failure 4 n administratively_prohibited 0 0 in
      let kept = enqueued-IsWellFormed s msg_open_failure 4 n administratively_prohibited 0 0 w in
      elim (Bool-cases (not (leb n long_max))) [
        | inl t ↦ rw t w
        | inr t ↦ elim (Bool-cases (is_error enqueued.1)) [
          | inl u ↦ rw (t, u) kept
          | inr u ↦ rw (t, u) (sent-IsWellFormed enqueued.0 kept)
        ]
      ]

  set_ext-IsWellFormed :
      (s : Session) (attribute : SshAttribute) (value : ℕ)
      → IsWellFormed s
      → IsWellFormed (set_channel_ext_attribute e s attribute value).0
  set_ext-IsWellFormed s attribute value w =
      (setters-IsWellFormed e s ssh_channel attribute value [] w).2

  fill_window-IsWellFormed :
      (s : Session) (n : ℕ) → IsWellFormed s → IsWellFormed (fill_window e s n).0
  unfolding fill_window
  fill_window-IsWellFormed s n w =
      and_then-IsWellFormed (set_channel_ext_attribute e s windowcount (get_window_size e s))
        (λ t. select_channel e t (number n) channel_both)
        (set_ext-IsWellFormed s windowcount (get_window_size e s) w)
        (λ t v. select_channel-IsWellFormed e t (number n) channel_both v)

  size_window-IsWellFormed :
      (s : Session) (n : ℕ) → IsWellFormed s → IsWellFormed (size_window e s n).0
  unfolding size_window
  size_window-IsWellFormed s n w =
      and_then-IsWellFormed (set_channel_ext_attribute e s windowsize (get_window_size e s))
        (λ t. fill_window e t n) (set_ext-IsWellFormed s windowsize (get_window_size e s) w)
        (λ t v. fill_window-IsWellFormed t n v)

  activate-IsWellFormed : (s : Session) (n : ℕ) → IsWellFormed s → IsWellFormed (activate e s n).0
  unfolding activate
  activate-IsWellFormed s n w =
      and_then-IsWellFormed (set_channel_ext_attribute e s active 1) (λ t. size_window e t n)
        (set_ext-IsWellFormed s active 1 w) (λ t v. size_window-IsWellFormed t n v)

  confirm_open-IsWellFormed :
      (s : Session) (n size : ℕ) → IsWellFormed s → IsWellFormed (confirm_open e s n size).0
  unfolding confirm_open
  confirm_open-IsWellFormed s n size w =
      let window = get_window_size e s in
      let enqueued = enqueue_response e s msg_open_confirmation 4 n n window size in
      let sent = and_then enqueued (λ u. send_enqueued_response e u) in
      let kept =
        and_then-IsWellFormed enqueued (λ u. send_enqueued_response e u)
          (enqueued-IsWellFormed s msg_open_confirmation 4 n n window size w) sent-IsWellFormed in
      elim (Bool-cases (is_error sent.1)) [
        | inl t ↦ rw t (delete_channel-IsWellFormed e sent.0 n channel_both true doc kept)
        | inr t ↦ rw t (activate-IsWellFormed sent.0 n kept)
      ]

  added-IsWellFormed :
      (s : Session) (n size : ℕ) (type arg1 : List ℕ) (refused : Bool)
      → IsWellFormed s
      → IsWellFormed (if refused then (s, internal) else add_channel e s n size type arg1).0
  added-IsWellFormed s n size type arg1 true w = w
  added-IsWellFormed s n size type arg1 false w =
      add_channel-IsWellFormed e s n size type arg1 doc w

  add_opened-IsWellFormed :
      (s : Session) (n : Option ℕ) (size : ℕ) (type : List ℕ) (forwards : Bool) (arg1 : List ℕ)
      → IsWellFormed s
      → IsWellFormed (add_opened e s n size type forwards arg1).0
  unfolding add_opened
  add_opened-IsWellFormed s none size type forwards arg1 w = w
  add_opened-IsWellFormed s (some n) size type forwards arg1 w =
      let refused = forwards && length arg1 == 0 in
      let added = if refused then (s, internal) else add_channel e s n size type arg1 in
      let kept = added-IsWellFormed s n size type arg1 refused w in
      elim (Bool-cases (is_error added.1)) [
        | inl t ↦ rw t (send_open_response_failed-IsWellFormed added.0 (some n) kept)
        | inr t ↦ rw t (confirm_open-IsWellFormed added.0 n size kept)
      ]

  module _ (r : Reader) where
    open_on-IsWellFormed :
        (s : Session) (type : List ℕ) (forwards : Bool) (n : Option ℕ) (size : ℕ) (stream : List ℕ)
        → IsWellFormed s
        → IsWellFormed (open_on e r s type forwards n size stream).0
    unfolding open_on
    open_on-IsWellFormed s type forwards n size stream w =
        let read : Status × List ℕ = if forwards then get_address_and_port r stream else (ok, []) in
        let size' = smaller size (s.receive_buf_size - extra_packet_size) in
        let failed = send_open_response_failed-IsWellFormed s n w in
        elim (Bool-cases (is_error read.0)) [
          | inl t ↦ rw t failed
          | inr t ↦ rw t (
              if_either (λ (x : Session × Status). IsWellFormed x.0) (not s.is_server)
                (send_open_response_failed e s n, permission)
                (add_opened e s n size' type forwards read.1) failed
                (add_opened-IsWellFormed s n size' type forwards read.1 w))
        ]

    open_with-IsWellFormed :
        (s : Session) (type : List ℕ) (forwards : Bool) (stream : List ℕ)
        → IsWellFormed s
        → IsWellFormed (open_with e r s type forwards stream).0
    unfolding open_with
    open_with-IsWellFormed s type forwards stream w =
        let sender = r.read_uint32 stream in
        let after = if is_error sender.0 then sender.2 else (r.read_uint32 sender.2).2 in
        let size = r.read_uint32 after in
        elim (Bool-cases (is_error size.0)) [
          | inl t ↦ rw t w
          | inr t ↦ elim (Bool-cases (ltb size.1 1024 || ltb 1048576 size.1)) [
            | inl u ↦ rw (t, u) (send_open_response_failed-IsWellFormed s (number_read sender) w)
            | inr u ↦
                rw (t, u)
                  (open_on-IsWellFormed s type forwards (number_read sender) size.1 size.2 w)
          ]
        ]

    -- Whatever a channel open message says, and whatever the call returns, the channel table stays
    -- well formed.
    pub process_channel_open-IsWellFormed :
        (s : Session) (stream : List ℕ)
        → IsWellFormed s
        → IsWellFormed (process_channel_open e r s stream).0
    unfolding process_channel_open
    process_channel_open-IsWellFormed s stream w =
        let read = r.read_string32 stream in
        let type = read.1 in
        elim (Bool-cases (is_error read.0 || length type == 0 || ltb max_text_size (length type))) [
          | inl t ↦ rw t w
          | inr t ↦ elim (Bool-cases (bytes_eq type session_type)) [
            | inl u ↦ rw (t, u) (open_with-IsWellFormed s type false read.2 w)
            | inr u ↦ elim (Bool-cases (bytes_eq type forwarding_type)) [
              | inl v ↦ rw (t, u, v) (open_with-IsWellFormed s type true read.2 w)
              | inr v ↦ rw (t, u, v) w
            ]
          ]
        ]

    -- Handlers that keep the channel table well formed still do so with the channel open message
    -- handled by `processChannelOpen`.
    pub with_open-KeepWellFormed :
        (h : Handlers) → KeepWellFormed h → KeepWellFormed (with_open e r h)
    with_open-KeepWellFormed h keep = record {
      request = keep.request;
      open_request = process_channel_open-IsWellFormed;
      disconnect = keep.disconnect;
      key_exchange = keep.key_exchange;
    }
