-- ===== src/Ssh/Tests/Messages.antt =====
-- Runs of the responses and of the message layer.
use bosh_dotnet.Prelude.{
  ℕ, ◌+◌, ◌/◌, ◌≤◌, ◌<◌, ◌≡◌, ◌⊎◌, refl, true, false, [], ◌∷◌, none, some, arith, pos, ◌-ℤ◌,
}
use bosh_dotnet.Prelude.Items.{Has}
use bosh_dotnet.Ssh.Environment.{HaveSameTable}
use bosh_dotnet.Ssh.Status.{Status, ok, invalid, failed}
use bosh_dotnet.Ssh.Session.{Session, ids, empty_response}
use bosh_dotnet.Ssh.Channel.Find.{
  number, find_channel_attr, find_channel_by_id, find_entry, get_current_channel_info,
}
use bosh_dotnet.Ssh.Channel.Manage.Invariant.{IsWellFormed}
use bosh_dotnet.Ssh.Channel.Attributes.{
  windowcount, windowsize, get_channel_ext_attribute, set_channel_ext_attribute,
}
use bosh_dotnet.Ssh.Channel.Response.{
  enqueue_response, encode_send_response, enqueue_channel_data, send_enqueued_response, wrapped,
  response_payload, uint32_bytes,
}
use bosh_dotnet.Ssh.Channel.Response.Enqueue.{enqueue_response-words, words}
use bosh_dotnet.Ssh.Channel.Response.Encode.{Leaves, encode_send_response-Leaves}
use bosh_dotnet.Ssh.Message.{handle_window_adjust, adjust_count}
use bosh_dotnet.Ssh.Message.Close.{close_channel}
use bosh_dotnet.Ssh.Message.Control.{process_close, process_channel_control_message}
use bosh_dotnet.Ssh.Message.Disconnect.{EndsSession, close_channel-EndsSession}
use bosh_dotnet.Ssh.Message.Gone.{process_close-absent}
use bosh_dotnet.Ssh.Message.Keep.{process_channel_control_message-IsWellFormed}
use bosh_dotnet.Ssh.Message.Refill.{handle_window_adjust_overrun}
use bosh_dotnet.Ssh.Message.Report.{ReportsEnd, process_close-ReportsEnd}
use bosh_dotnet.Ssh.Message.Window.{handle_window_adjust-InWindow}
use bosh_dotnet.Ssh.Tests.{
  plain, plain-IsDocumented, two_channels, two_channels-IsWellFormed, open_channel, quiet,
  quiet-KeepWellFormed,
}

-- A window adjust message for channel 5.
abbrev enqueued : Session × Status
enqueued = enqueue_response plain two_channels 93 2 5 200 0 0

enqueued_ok : enqueued.1 ≡ ok
unfolding enqueue_response response_payload uint32_bytes
enqueued_ok = refl

enqueue_response-words_example :
    (enqueued.0.response.type ≡ 93)
    × (words enqueued.0.response.payload ≡ 5 ∷ 200 ∷ [])
    × (two_channels.response.type ≡ 0)
    × HaveSameTable two_channels enqueued.0
enqueue_response-words_example =
    enqueue_response-words plain two_channels 93 2 5 200 0 0 (omega arith) (omega arith)
      (omega arith) (omega arith) enqueued_ok

-- The same response, waiting.
abbrev waiting : Session
waiting = record two_channels { response = record { type = 93; payload = 0 ∷ 0 ∷ 0 ∷ 5 ∷ [] } }

encode_send_response-Leaves_example :
    ((encode_send_response plain waiting none).0 ≡ waiting)
    ⊎ Leaves waiting (wrapped plain waiting).1 (encode_send_response plain waiting none)
encode_send_response-Leaves_example =
    encode_send_response-Leaves plain plain-IsDocumented waiting none

-- A session that is not open, and a network that refuses: the response is lost.
lost :
    (encode_send_response
      (record plain { send_packet_ssh2 = λ packet. failed 3 })
      (record waiting { is_open = false })
      none).0.response
    ≡ empty_response
unfolding encode_send_response
lost = refl

-- 60 bytes of 100 are taken from a window of 200: 160 are added.
sixty_taken : (handle_window_adjust plain two_channels 5 60).1 ≡ ok
unfolding handle_window_adjust get_channel_ext_attribute set_channel_ext_attribute
    get_current_channel_info find_channel_by_id find_entry enqueue_channel_data enqueue_response
    send_enqueued_response uint32_bytes
sixty_taken = refl

handle_window_adjust-InWindow_example :
    let t = (handle_window_adjust plain two_channels 5 60).0 in
    (count : ℕ) × (size : ℕ) × (v : ℕ) × (get_channel_ext_attribute plain two_channels windowcount
      ≡ (ok, count))
    × (get_channel_ext_attribute plain two_channels windowsize ≡ (ok, size))
    × (0 < count)
    × (count ≤ size)
    × (get_channel_ext_attribute plain t windowcount ≡ (ok, v))
    × (get_channel_ext_attribute plain t windowsize ≡ (ok, size))
    × (size / 2 ≤ v)
    × (v ≤ size)
    × ((v + 60 ≡ count) ⊎ (v + 60 ≡ count + adjust_count size (pos count -ℤ pos 60)))
handle_window_adjust-InWindow_example =
    handle_window_adjust-InWindow plain plain-IsDocumented two_channels 5 60
      (two_channels-IsWellFormed, omega arith, omega arith) sixty_taken

count_of_100 : get_channel_ext_attribute plain two_channels windowcount ≡ (ok, 100)
unfolding get_channel_ext_attribute get_current_channel_info find_channel_by_id find_entry
count_of_100 = refl

size_of_200 : get_channel_ext_attribute plain two_channels windowsize ≡ (ok, 200)
unfolding get_channel_ext_attribute get_current_channel_info find_channel_by_id find_entry
size_of_200 = refl

adjust_sent : (enqueue_channel_data plain two_channels 93 5 200).1 ≡ ok
unfolding enqueue_channel_data enqueue_response send_enqueued_response uint32_bytes
adjust_sent = refl

handle_window_adjust_overrun_example :
    handle_window_adjust plain two_channels 5 250
    ≡ ((enqueue_channel_data plain two_channels 93 5 200).0, invalid)
handle_window_adjust_overrun_example =
    handle_window_adjust_overrun plain two_channels 5 250 100 200 count_of_100 size_of_200
      (omega arith) (omega arith) (omega arith) (omega arith) (omega arith) adjust_sent

seven_found : find_channel_attr plain two_channels (number 7) ≡ some (2, open_channel 2 7)
unfolding find_channel_attr find_entry
seven_found = refl

process_close-ReportsEnd_example : ReportsEnd plain (process_close plain two_channels 7)
process_close-ReportsEnd_example = process_close-ReportsEnd plain two_channels 7 (omega arith)

process_close-absent_example : ¬ Has 2 (ids (process_close plain two_channels 7).0.attributes)
process_close-absent_example =
    process_close-absent plain plain-IsDocumented two_channels 7 2 (open_channel 2 7)
      two_channels-IsWellFormed (omega arith) seven_found

process_channel_control_message-IsWellFormed_example :
    IsWellFormed (process_channel_control_message plain quiet two_channels 97 (7 ∷ [])).0
process_channel_control_message-IsWellFormed_example =
    process_channel_control_message-IsWellFormed plain plain-IsDocumented quiet quiet-KeepWellFormed
      two_channels 97 (7 ∷ []) two_channels-IsWellFormed

close_channel-EndsSession_example : EndsSession (close_channel plain quiet two_channels true)
close_channel-EndsSession_example =
    close_channel-EndsSession quiet plain plain-IsDocumented two_channels (omega arith)
      (omega arith)
