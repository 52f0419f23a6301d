-- ===== src/Ssh/Reading/Header.antt =====
-- checkHandshakePacketStatus, getDisconnectInfo and readPacketHeaderSSH2 of ssh2_rd.c.
use bosh_dotnet.Prelude.{
  ℕ, suc, ◌+◌, ◌%◌, not, ◌&&◌, ◌||◌, Bool, true, false, List, [], ◌∷◌, ◌++◌, Option, none, some,
  get_elem?, take, drop, ltb, leb, ◌==◌, if◌then◌else◌,
}
use bosh_dotnet.Ssh.Status.{
  Status, ok, internal, permission, bad_data, wrong_key, signature, read_error, not_available,
  is_error,
}
use bosh_dotnet.Ssh.Channel.Find.{bytes_eq}
use bosh_dotnet.Ssh.Reading.{check_packet_valid}
use bosh_dotnet.Ssh.Reading.State.{ReadState, ReadEnvironment}

-- MIN_PACKET_SIZE and SSH2_HEADER_REMAINDER_SIZE
abbrev pub min_packet_size : ℕ
min_packet_size = 16

abbrev pub header_remainder_size : ℕ
header_remainder_size = 12

-- SSH2_MIN_PADLENGTH_SIZE
abbrev pub min_padlength_size : ℕ
min_padlength_size = 4

-- SSH2_MSG_SPECIAL_USERAUTH, SSH2_MSG_SPECIAL_USERAUTH_PAM, SSH2_MSG_SPECIAL_LAST
abbrev pub special_userauth : ℕ
special_userauth = 501

abbrev pub special_userauth_pam : ℕ
special_userauth_pam = 502

abbrev pub special_last : ℕ
special_last = 505

abbrev pub is_read_error : Status → Bool
is_read_error read_error = true
is_read_error _ = false

-- "FATAL: " and "FATAL ERROR:"
abbrev pub fatal : List ℕ
fatal = 70 ∷ 65 ∷ 84 ∷ 65 ∷ 76 ∷ 58 ∷ 32 ∷ []

abbrev pub fatal_error : List ℕ
fatal_error = 70 ∷ 65 ∷ 84 ∷ 65 ∷ 76 ∷ 32 ∷ 69 ∷ 82 ∷ 82 ∷ 79 ∷ 82 ∷ 58 ∷ []

-- A text in the place of a packet.
abbrev pub is_diagnostic : List ℕ → Bool
is_diagnostic header = bytes_eq (take 7 header) fatal || bytes_eq (take 12 header) fatal_error

-- The byte at a place of the header buffer, which the header fills.
abbrev pub byte_at : List ℕ → ℕ → ℕ
byte_at l i = elim (get_elem? l i) [ none ↦ 0 | some b ↦ b ]

-- errorMapTbl of getDisconnectInfo, with CRYPT_ERROR_READ for the codes that it does not hold.
abbrev pub disconnect_status : ℕ → Status
disconnect_status n =
    if n == 1
    then permission
    else if n == 5
    then signature
    else if n == 7 || n == 8
    then not_available
    else if n == 9
    then wrong_key
    else read_error

-- The MAC, which the packet length leaves out.
abbrev pub extra_length : ReadState → ℕ
extra_length s = if s.is_secure_read then s.auth_blocksize else 0

abbrev pub length_fits : ReadState → ℕ → Bool
length_fits s n =
    leb header_remainder_size (n + extra_length s)
    && leb (2 + min_padlength_size) n
    && ltb (n + extra_length s) s.receive_buf_size

-- The status for the code of the peer, which is kept.
abbrev pub disconnect_with : ReadState → Option ℕ → ReadState × Status
disconnect_with s none = (s, bad_data)
disconnect_with s (some n) = (record s { error_code = some n }, disconnect_status n)

module _ (e : ReadEnvironment) where
  -- The text of the peer goes into the error message alone.
  unfoldable pub get_disconnect_info : ReadState → List ℕ → ReadState × Status
  get_disconnect_info s stream = disconnect_with s (e.read_uint32 stream)

  -- The status of the header is CRYPT_OK or CRYPT_ERROR_READ.
  unfoldable pub check_handshake_packet_status :
      ReadState → Status → (header : List ℕ) → (expected_type : ℕ) → ReadState × Status
  check_handshake_packet_status s status header expected_type =
      let crashed = record s {
        packet = take min_packet_size header ++ e.read_text_line s.headers_read;
        send_closed = true;
      } in
      let is_userauth =
        expected_type == special_userauth || expected_type == special_userauth_pam in
      if is_read_error status
      then (if not s.is_server && is_userauth
          then (s, status)
          else if s.is_server && s.is_cuteftp && expected_type == 21
          then (s, status)
          else (s, ok))
      else if s.has_text_diags && is_diagnostic header
      then (crashed, bad_data)
      else (s, ok)

  -- A header in the handshake. An error of the check replaces the status of the read.
  unfoldable pub handshake_header : ReadState → ℕ → ReadState × Status × List ℕ
  unfolding check_handshake_packet_status
  handshake_header s expected_type =
      let (st, header) = e.read_fixed_header_atomic s.headers_read in
      let (t, checked) = check_handshake_packet_status s st header expected_type in
      if is_read_error st || not (is_error st)
      then (t, (if is_error checked then checked else st), header)
      else (s, st, header)

  unfoldable pub fetch_header : ReadState → Bool → ℕ → ReadState × Status × List ℕ
  unfolding handshake_header
  fetch_header s is_handshake expected_type =
      let (st, header) = e.read_fixed_header s.headers_read in
      if is_handshake then handshake_header s expected_type else (s, st, header)

  -- The padding, the type and the room in the buffer, then the copy of the header behind its length.
  unfoldable pub check_types : ReadState → Bool → (header : List ℕ) → ReadState × Status
  check_types s is_handshake header =
      let t = record s { pad_length = byte_at header 4; packet_type = byte_at header 5 } in
      let valid = check_packet_valid t.packet_type is_handshake in
      if ltb t.pad_length min_padlength_size || ltb 255 t.pad_length
      then (t, bad_data)
      else if is_error valid
      then (t, valid)
      else if is_handshake && not (t.receive_buf_pos == 0)
      then (t, internal)
      else if not (e.range_check_z t.receive_buf_pos header_remainder_size t.receive_buf_size)
      then (t, internal)
      else (record t { packet = drop 4 header }, ok)

  -- From the length on. The last part is the packet length.
  unfoldable pub check_length :
      ReadState → Bool → (header : List ℕ) → Option ℕ → ReadState × Status × ℕ
  unfolding check_types
  check_length s is_handshake header none = (s, bad_data, 0)
  check_length s is_handshake header (some n) =
      let (t, st) = check_types s is_handshake header in
      if not (length_fits s n)
      then (s, bad_data, 0)
      else if s.is_secure_read && not ((4 + n) % s.crypt_blocksize == 0)
      then (s, bad_data, 0)
      else (t, st, if is_error st then 0 else n)

  unfoldable pub open_header : ReadState → Bool → (header : List ℕ) → ReadState × Status × ℕ
  unfolding check_length
  open_header s is_handshake header =
      let (st, plain) =
        if s.is_secure_read then e.decrypt s.headers_read header else (ok, header) in
      if is_error st then (s, st, 0) else check_length s is_handshake plain (e.read_uint32 plain)

  -- With its status the function returns the packet length; the length of the MAC is `extra_length`.
  unfoldable pub read_packet_header_ssh2 : ReadState → Bool → ℕ → ReadState × Status × ℕ
  unfolding open_header fetch_header
  read_packet_header_ssh2 s is_handshake expected_type =
      let (t, st, header) = fetch_header s is_handshake expected_type in
      let u = record t {
        headers_read = suc t.headers_read;
        is_fatal = not is_handshake || t.is_fatal;
      } in
      if is_error st
      then (record t { headers_read = suc t.headers_read }, st, 0)
      else open_header u is_handshake header
