-- ===== src/Ssh/Reading/State.antt =====
-- What readPacketHeaderSSH2 and readHSPacketSSH2 of ssh2_rd.c read and write of the session, and what
-- they call outside this repository.
use bosh_dotnet.Prelude.{ℕ, Bool, List, Option}
use bosh_dotnet.Ssh.Status.{Status}

-- The fields of SESSION_INFO and SSH_INFO. `packet` holds the bytes of the present packet behind its
-- length, which the receive buffer keeps from receiveBufPos on. `is_fatal` is READINFO_FATAL in the
-- caller's `readInfo`, `headers_read` counts the headers that were asked for, and `error_code` is
-- errorInfo.errorCode.
pub record ReadState : Type 0 where
  pub packet_type : ℕ
  pub pad_length : ℕ
  pub read_seq_no : ℕ
  pub receive_buf_pos : ℕ
  pub receive_buf_end : ℕ
  pub receive_buf_size : ℕ
  pub packet : List ℕ
  pub is_secure_read : Bool
  pub auth_blocksize : ℕ
  pub crypt_blocksize : ℕ
  pub is_server : Bool
  pub is_cuteftp : Bool  -- SSH_PFLAG_CUTEFTP
  pub has_text_diags : Bool  -- SSH_PFLAG_TEXTDIAGS
  pub send_closed : Bool
  pub is_fatal : Bool
  pub headers_read : ℕ
  pub error_code : Option ℕ

-- The network, by the number of the header and the length asked for: a header comes with a status,
-- `sread` gives what it could read; and the library. `check_mac_ssh` takes the sequence number, the
-- bytes and the lengths of the payload and the MAC; `range_check` a start, a length and a size.
pub record ReadEnvironment : Type 0 where
  pub read_fixed_header_atomic : ℕ → Status × List ℕ
  pub read_fixed_header : ℕ → Status × List ℕ
  pub sread : ℕ → ℕ → Status × List ℕ
  pub read_text_line : ℕ → List ℕ
  pub decrypt : ℕ → List ℕ → Status × List ℕ
  pub check_mac_ssh : ℕ → List ℕ → ℕ → ℕ → Status
  pub read_uint32 : List ℕ → Option ℕ
  pub read_string32 : List ℕ → Status × List ℕ
  pub range_check_z : ℕ → ℕ → ℕ → Bool
  pub range_check : ℕ → ℕ → ℕ → Bool
