-- ===== src/Ssh/Message/Handlers.antt =====
-- What the message layer calls outside ssh2_chn.c and ssh2_msg.c: the request handlers of
-- ssh2_msgs.c, ssh2_rd.c and ssh2_svr.c, the reads of the network, the end of the session.
use bosh_dotnet.Prelude.{ℕ, ℤ, List, Option}
use bosh_dotnet.Ssh.Status.{Status}
use bosh_dotnet.Ssh.Session.{Session}
use bosh_dotnet.Ssh.Channel.Manage.Invariant.{IsWellFormed}

-- A stream is the bytes that are left of it. `process_channel_request` takes the channel that was
-- current before, `none` for CRYPT_UNUSED and UNUSED_CHANNEL_NO. `read_uint32` is `none` for an
-- error, `read_header` for an error status.
pub record Handlers : Type 0 where
  pub failsafe_iterations_small : ℕ
  pub read_uint32 : List ℕ → Option (ℕ × List ℕ)
  pub process_channel_request : Session → List ℕ → Option ℕ → Session × Status
  pub process_channel_open : Session → List ℕ → Session × Status
  pub get_disconnect_info : Session → List ℕ → Session × Status
  pub ke_dh_router : Session → List ℕ → ℕ → Session × Status
  pub send_close_notification : Session → Session × Status
  pub read_header : Session → Session × Option ℕ
  pub read_packet : Session → ℤ → Session

-- The handlers of other files keep the channel table well formed.
pub record KeepWellFormed (h : Handlers) : Type 0 where
  pub request :
      (s : Session) (stream : List ℕ) (previous : Option ℕ)
      → IsWellFormed s
      → IsWellFormed (h.process_channel_request s stream previous).0
  pub open_request :
      (s : Session) (stream : List ℕ)
      → IsWellFormed s
      → IsWellFormed (h.process_channel_open s stream).0
  pub disconnect :
      (s : Session) (stream : List ℕ)
      → IsWellFormed s
      → IsWellFormed (h.get_disconnect_info s stream).0
  pub key_exchange :
      (s : Session) (stream : List ℕ) (n : ℕ)
      → IsWellFormed s
      → IsWellFormed (h.ke_dh_router s stream n).0
