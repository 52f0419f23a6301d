-- ===== src/Ssh/Session.antt =====
-- The state of an SSH session as far as the channel layer reads or writes it:
-- SSH_CHANNEL_INFO and its flags (ssh2_chn.c), the attribute list that holds the channels, the
-- current channels, the enqueued response and the buffer positions of SESSION_INFO.
pub mod Ids
use bosh_dotnet.Prelude.{ℕ, ℤ, List, [], ◌∷◌, Bool, Option}

-- The attributes of a channel that the cursor can stand on.
pub data AttributeType : Type 0 where
  ssh_channel ssh_channel_type ssh_channel_arg1 ssh_channel_arg2 : AttributeType
  ssh_channel_active attribute_none : AttributeType

-- A byte buffer and its length field are one list. `cursor_moved` is ATTR_FLAG_CURSORMOVED of the
-- list item that holds the channel.
pub record Channel : Type 0 where
  pub channel_id : ℕ
  pub read_channel_no : ℕ
  pub write_channel_no : ℕ
  pub is_active : Bool  -- CHANNEL_FLAG_ACTIVE
  pub is_write_closed : Bool  -- CHANNEL_FLAG_WRITECLOSED
  pub cursor_pos : AttributeType
  pub cursor_moved : Bool
  pub window_count : ℕ
  pub window_size : ℕ
  pub max_packet_size : ℕ
  pub type : List ℕ
  pub arg1 : List ℕ
  pub arg2 : List ℕ

-- An item of the session's attribute list: a channel, or an attribute of another kind.
pub data Attribute : Type 0 where
  channel : Channel → Attribute
  other : ℕ → Attribute

-- SSH_RESPONSE_INFO: `type` is 0 while no response is enqueued.
pub record Response : Type 0 where
  pub type : ℕ
  pub payload : List ℕ

abbrev pub empty_response : Response
empty_response = record { type = 0; payload = [] }

-- `curr_read_channel` and `curr_write_channel` are channel IDs. `is_open` and `send_closed` are
-- SESSION_ISOPEN and SESSION_SENDCLOSED. `buffered` holds the packets that were assembled in the
-- send buffer and `sent` those that went to the network past it, each the newest first;
-- `terminal_width` and `terminal_height` are the global variables of ssh2_msgs.c, `none` for a
-- negative number. `is_connected` falls when the network session is shut down. `limits_window` is
-- SSH_PFLAG_WINDOWSIZE; `protocol_send_closed` is the bit of SESSION_SENDCLOSED in
-- `protocolFlags`, which holds flags of another kind.
pub record Session : Type 0 where
  pub attributes : List Attribute
  pub curr_read_channel : ℕ
  pub curr_write_channel : ℕ
  pub channel_index : ℕ
  pub next_channel_no : ℕ
  pub max_packet_size : ℕ
  pub response : Response
  pub is_open : Bool
  pub send_closed : Bool
  pub send_buf_size : ℕ
  pub send_buf_pos : ℕ
  pub send_buf_start_ofs : ℕ
  pub partial_write : Bool
  pub buffered : List (List ℕ)
  pub sent : List (List ℕ)
  pub is_connected : Bool
  pub is_server : Bool
  pub terminal_width : Option ℕ
  pub terminal_height : Option ℕ
  pub limits_window : Bool
  pub protocol_send_closed : Bool
  pub receive_buf_size : ℕ
  pub receive_buf_pos : ℕ
  pub receive_buf_end : ℕ
  pub pending_packet_remaining : ℤ

-- UNUSED_CHANNEL_ID
abbrev pub unused_channel_id : ℕ
unused_channel_id = 0

-- LONG_MAX and INT_MAX of the compiler that builds the server, both of 32 bits.
abbrev pub long_max : ℕ
long_max = 2147483647

abbrev pub int_max : ℕ
int_max = 2147483647

-- CRYPT_MAX_TEXTSIZE
abbrev pub max_text_size : ℕ
max_text_size = 64

-- SSH_MAX_CHANNELS
abbrev pub ssh_max_channels : ℕ
ssh_max_channels = 40

-- SSH2_HEADER_SIZE, CRYPT_MAX_HASHSIZE and CRYPT_MAX_IVSIZE
abbrev pub ssh2_header_size : ℕ
ssh2_header_size = 5

abbrev pub max_hash_size : ℕ
max_hash_size = 32

abbrev pub max_iv_size : ℕ
max_iv_size = 32

-- EXTRA_PACKET_SIZE
abbrev pub extra_packet_size : ℕ
extra_packet_size = 512

abbrev pub channels : List Attribute → List Channel
channels [] = []
channels (channel c ∷ l) = c ∷ channels l
channels (other n ∷ l) = channels l

abbrev pub ids : List Attribute → List ℕ
ids [] = []
ids (channel c ∷ l) = c.channel_id ∷ ids l
ids (other n ∷ l) = ids l
