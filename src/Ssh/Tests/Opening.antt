-- ===== src/Ssh/Tests/Opening.antt =====
-- Runs of the channel open message and of channel requests.
use bosh_dotnet.Prelude.{◌≡◌, refl, ℕ, List, [], ◌∷◌, arith}
use bosh_dotnet.Ssh.Status.{ok, failed}
use bosh_dotnet.Ssh.Channel.Find.{
  find_entry, find_channel_by_channel_no, find_channel_by_id, get_current_channel_info,
}
use bosh_dotnet.Ssh.Channel.Manage.{add_channel, select_channel, session_type}
use bosh_dotnet.Ssh.Channel.Attributes.{set_channel_ext_attribute}
use bosh_dotnet.Ssh.Channel.Response.{enqueue_response, send_enqueued_response, uint32_bytes}
use bosh_dotnet.Ssh.Message.{get_window_size}
use bosh_dotnet.Ssh.Message.Handlers.{KeepWellFormed}
use bosh_dotnet.Ssh.Message.Address.{Reader, get_address_and_port}
use bosh_dotnet.Ssh.Message.Open.{with_open, add_opened, activate, process_channel_open}
use bosh_dotnet.Ssh.Message.Open.Accept.{with_open-KeepWellFormed}
use bosh_dotnet.Ssh.Message.Request.{with_requests}
use bosh_dotnet.Ssh.Message.Request.Serve.{with_requests-KeepWellFormed}
use bosh_dotnet.Ssh.Message.Open.Accepted.{IsAccepted, process_channel_open-IsAccepted}
use bosh_dotnet.Ssh.Tests.{
  plain, plain-IsDocumented, quiet, quiet-KeepWellFormed, two_channels, two_channels-IsWellFormed,
}

-- A number is one item of the stream, and the type is always a session.
abbrev plain_reader : Reader
plain_reader = record {
  read_string32 = λ stream. (ok, session_type, stream);
  read_uint32 = λ stream. elim stream [ [] ↦ (failed 3, 0, []) | x ∷ rest ↦ (ok, x, rest) ];
  read_byte = λ stream. elim stream [ [] ↦ (failed 3, 0, []) | x ∷ rest ↦ (ok, x, rest) ];
}

abbrev host_reader : Reader
host_reader = record plain_reader { read_string32 = λ stream. (ok, 104 ∷ [], stream) }

-- "h" and port 2222.
forwarded : get_address_and_port host_reader (2222 ∷ []) ≡ (ok, 104 ∷ 58 ∷ 50 ∷ 50 ∷ 50 ∷ 50 ∷ [])
unfolding get_address_and_port
forwarded = refl

with_open-KeepWellFormed_example : KeepWellFormed (with_open plain plain_reader quiet)
with_open-KeepWellFormed_example =
    with_open-KeepWellFormed plain plain-IsDocumented plain_reader quiet quiet-KeepWellFormed

-- Channel 9, a window of 100000 and packets of 4096 bytes.
abbrev open_nine : List ℕ
open_nine = 9 ∷ 100000 ∷ 4096 ∷ []

nine_accepted : (process_channel_open plain plain_reader two_channels open_nine).1 ≡ ok
unfolding add_opened add_channel find_channel_by_channel_no find_entry select_channel
    enqueue_response uint32_bytes get_window_size send_enqueued_response activate
    set_channel_ext_attribute get_current_channel_info find_channel_by_id process_channel_open
nine_accepted = refl

process_channel_open-IsAccepted_example :
    IsAccepted plain two_channels
      (process_channel_open plain plain_reader two_channels open_nine).0
      9
      4096
      session_type
process_channel_open-IsAccepted_example =
    process_channel_open-IsAccepted plain plain-IsDocumented plain_reader two_channels session_type
      9 100000 4096 open_nine open_nine (100000 ∷ 4096 ∷ []) (4096 ∷ []) []
      two_channels-IsWellFormed (omega arith) (omega arith) refl refl refl refl (omega arith)
      nine_accepted

with_requests-KeepWellFormed_example : KeepWellFormed (with_requests plain plain_reader quiet)
with_requests-KeepWellFormed_example =
    with_requests-KeepWellFormed plain plain-IsDocumented plain_reader quiet quiet-KeepWellFormed
