-- ===== src/Ssh/Reading/Handshake.antt =====
-- readHSPacketSSH2 of ssh2_rd.c.
pub mod Rounds
pub mod Answer
use bosh_dotnet.Prelude.{
  ℕ, zero, suc, ◌+◌, ◌-◌, not, ◌&&◌, ◌||◌, Bool, true, false, List, [], ◌∷◌, ◌++◌, length, take,
  drop, ltb, leb, ◌==◌, if◌then◌else◌,
}
use bosh_dotnet.Ssh.Status.{Status, ok, internal, bad_data, overflow, wrong_key, timeout, is_error}
use bosh_dotnet.Ssh.Session.{extra_packet_size}
use bosh_dotnet.Ssh.Reading.State.{ReadState, ReadEnvironment}
use bosh_dotnet.Ssh.Reading.Header.{
  header_remainder_size, special_userauth, special_userauth_pam, special_last, extra_length,
  get_disconnect_info, read_packet_header_ssh2,
}

-- SSH2_MSG_IGNORE, SSH2_MSG_DEBUG and SSH2_MSG_USERAUTH_BANNER
abbrev pub is_no_op : ℕ → Bool
is_no_op type = type == 2 || type == 4 || type == 53

-- The packet that an expected type stands for, beside one that arrived. SSH2_MSG_SPECIAL_REQUEST
-- is handled before.
abbrev pub wanted_type : (expected arrived : ℕ) → ℕ
wanted_type expected arrived =
    if expected == special_userauth_pam && arrived == 60
    then 60
    else if expected == special_userauth_pam || expected == special_userauth
    then (if arrived == 51 then 51 else 52)
    else if expected == 503
    then (if arrived == 92 then 92 else 91)
    else if expected == 504
    then arrived
    else if expected == 30 && arrived == 34
    then 34
    else expected

-- The test of SSH2_MSG_SPECIAL_REQUEST.
abbrev pub refuses_request : (expected arrived : ℕ) → Bool
refuses_request expected arrived = expected == 504 && not (arrived == 80) && not (arrived == 98)

-- SSH2_MSG_DISCONNECT is 1.
abbrev pub least_length : ReadState → ℕ → ℕ
least_length s min_packet_size = if s.packet_type == 1 then 13 else min_packet_size

-- A payload that is not empty moves down over the header.
unfoldable pub move_payload : ReadState → ℕ → ReadState
move_payload s payload = if payload == 0 then s else record s { packet = drop 2 s.packet }

module _ (e : ReadEnvironment) where
  -- The part behind the header, if there is one. The read is numbered like its header.
  unfoldable pub read_remainder : ReadState → ℕ → ReadState × Status
  read_remainder s remaining =
      let (st, bytes) = e.sread s.headers_read remaining in
      if remaining == 0
      then (s, ok)
      else if is_error st
      then (s, st)
      else if not (length bytes == remaining)
      then (s, timeout)
      else (record s { packet = s.packet ++ bytes }, ok)

  -- The payload behind the header, up to the MAC.
  unfoldable pub decrypt_remainder : ReadState → ℕ → ReadState × Status
  decrypt_remainder s n =
      let head = take header_remainder_size s.packet in
      let body = take (n - header_remainder_size) (drop header_remainder_size s.packet) in
      let (st, plain) = e.decrypt s.headers_read body in
      if not (ltb header_remainder_size n)
      then (s, ok)
      else if is_error st
      then (s, st)
      else (record s { packet = head ++ plain ++ drop n s.packet }, ok)

  -- In secure mode; 5 and 6 are SSH2_MSG_SERVICE_REQUEST and SSH2_MSG_SERVICE_ACCEPT.
  unfoldable pub unprotect : ReadState → (expected_type n : ℕ) → ReadState × Status
  unfolding decrypt_remainder
  unprotect s expected_type n =
      let (t, st) = decrypt_remainder s n in
      let mac = e.check_mac_ssh t.read_seq_no t.packet n (extra_length t) in
      if not s.is_secure_read
      then (s, ok)
      else if is_error st
      then (t, st)
      else if not (is_error mac)
      then (t, ok)
      else (t, if expected_type == 5 || expected_type == 6 then wrong_key else bad_data)

  -- One round of the loop, with the packet length.
  unfoldable pub read_one : ReadState → (expected_type : ℕ) → ReadState × Status × ℕ
  unfolding read_remainder unprotect
  read_one s expected_type =
      let (t, header, n) = read_packet_header_ssh2 e s true expected_type in
      let total = n + extra_length t in
      let (u, rest) = read_remainder t (total - header_remainder_size) in
      let (v, checked) = unprotect u expected_type n in
      if not (s.receive_buf_pos == 0 && s.receive_buf_end == 0)
      then (s, internal, 0)
      else if is_error header
      then (t, header, 0)
      else if not (leb header_remainder_size total && ltb total t.receive_buf_size)
      then (t, internal, 0)
      else if is_error rest
      then (u, rest, 0)
      else if is_error checked
      then (v, checked, 0)
      else (record v { read_seq_no = v.read_seq_no + 1 }, ok, n)

  -- The loop over no-op packets: `left` is the number of rounds that noPackets < 5 allows. A packet
  -- that ends the last round leaves noPackets at 5.
  unfoldable pub skip_no_ops : (left : ℕ) → ReadState → (expected_type : ℕ) → ReadState × Status × ℕ
  unfolding read_one
  skip_no_ops zero s expected_type = (s, overflow, 0)
  skip_no_ops (suc left) s expected_type =
      let (t, st, n) = read_one s expected_type in
      let rest = skip_no_ops left t expected_type in
      if is_error st
      then (t, st, 0)
      else if is_no_op t.packet_type
      then rest
      else if left == 0
      then (t, overflow, 0)
      else (t, ok, n)

  -- The type of the packet against the expected one. `n` is the length of the payload.
  unfoldable pub check_type : ReadState → (expected_type n : ℕ) → ReadState × Status × ℕ
  check_type s expected_type n =
      let (t, reason) = get_disconnect_info e s (take n s.packet) in
      if s.packet_type == 1
      then (t, reason, 0)
      else if refuses_request expected_type s.packet_type
      then (s, bad_data, 0)
      else if not (s.packet_type == wanted_type expected_type s.packet_type)
      then (s, bad_data, 0)
      else (s, ok, n)

  -- From the length adjustment on: `n` is the packet length. A length below the padding is less
  -- than the least length, which is not 0.
  unfoldable pub strip_packet :
      ReadState → (expected_type min_packet_size n : ℕ) → ReadState × Status × ℕ
  unfolding check_type move_payload
  strip_packet s expected_type min_packet_size n =
      let overhead = 1 + s.pad_length in
      let payload = n - overhead - 1 in
      if ltb n (overhead + least_length s min_packet_size)
      then (s, bad_data, 0)
      else if ltb s.receive_buf_size (n - overhead + extra_packet_size)
      then (s, bad_data, 0)
      else if not (payload == 0) && not (e.range_check 2 payload s.receive_buf_size)
      then (s, internal, 0)
      else check_type (move_payload s payload) expected_type payload

  -- With its status the function returns the length of the payload.
  unfoldable pub read_hs_packet_ssh2 :
      ReadState → (expected_type min_packet_size : ℕ) → ReadState × Status × ℕ
  unfolding skip_no_ops strip_packet
  read_hs_packet_ssh2 s expected_type min_packet_size =
      let (t, st, n) = skip_no_ops 5 (record s { packet_type = 2 }) expected_type in
      if not (leb 1 expected_type && ltb expected_type special_last)
      then (s, internal, 0)
      else if not (leb 1 min_packet_size && leb min_packet_size 1024)
      then (s, internal, 0)
      else if is_error st
      then (t, st, 0)
      else strip_packet t expected_type min_packet_size n
