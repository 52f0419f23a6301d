-- ===== src/Ssh/Message/Packet.antt =====
-- The packet types that processChannelControlMessage tells apart (ssh.h, ssh2_msg.c).
use bosh_dotnet.Prelude.{ℕ, Bool, ◌||◌, ◌==◌, if◌then◌else◌}

-- `key_exchange` keeps the message number, which the key exchange takes.
pub data Packet : Type 0 where
  global_request channel_open no_operation disconnect : Packet
  key_exchange : ℕ → Packet
  channel_data channel_extended_data channel_request : Packet
  channel_window_adjust channel_eof channel_close : Packet
  unexpected : ℕ → Packet

is_key_exchange : ℕ → Bool
is_key_exchange n = n == 30 || n == 32 || n == 34 || n == 20 || n == 21

-- The labels of the first switch.
unfoldable pub packet_of : ℕ → Packet
unfolding is_key_exchange
packet_of n =
    if n == 80
    then global_request
    else if n == 90
    then channel_open
    else if n == 2 || n == 4
    then no_operation
    else if n == 1
    then disconnect
    else if is_key_exchange n
    then key_exchange n
    else if n == 94
    then channel_data
    else if n == 95
    then channel_extended_data
    else if n == 98
    then channel_request
    else if n == 93
    then channel_window_adjust
    else if n == 96
    then channel_eof
    else if n == 97
    then channel_close
    else unexpected n
