-- ===== src/Ssh/Tests/Reading.antt =====
-- Runs of the packet type check.
use bosh_dotnet.Prelude.{
  ℕ, ◌+◌, ◌≤◌, ◌≡◌, refl, ◌≢◌, ◌↔◌, ◌⊎◌, true, false, List, [], ◌∷◌, none, get_elem?, ltb, leb,
  if◌then◌else◌,
}
use bosh_dotnet.Ssh.Status.{ok, overflow, is_error}
use bosh_dotnet.Ssh.Message.Packet.{packet_of, unexpected}
use bosh_dotnet.Ssh.Reading.{check_packet_valid, is_listed}
use bosh_dotnet.Ssh.Reading.State.{ReadState, ReadEnvironment}
use bosh_dotnet.Ssh.Reading.Header.{
  check_handshake_packet_status, handshake_header, fetch_header, check_types, check_length,
  open_header, read_packet_header_ssh2,
}
use bosh_dotnet.Ssh.Reading.Handshake.{
  read_remainder, decrypt_remainder, unprotect, read_one, skip_no_ops, move_payload, check_type,
  strip_packet, read_hs_packet_ssh2,
}
use bosh_dotnet.Ssh.Reading.Handshake.Answer.{IsAnswer, read_hs_packet_ssh2-IsAnswer}
use bosh_dotnet.Ssh.Reading.Dispatch.{answers, check_packet_valid_iff}

close_handled : packet_of 97 ≢ unexpected 97
unfolding packet_of
close_handled h = cc

check_packet_valid_iff_example :
    ((check_packet_valid 99 false ≡ ok) × (packet_of 99 ≡ unexpected 99))
    ↔ (is_listed answers 99 ≡ true)
check_packet_valid_iff_example = check_packet_valid_iff 99

-- A header of a packet of 12 bytes with 4 bytes of padding.
abbrev header_of : ℕ → List ℕ
header_of type = 0 ∷ 0 ∷ 0 ∷ 12 ∷ 4 ∷ type ∷ 1 ∷ 2 ∷ 3 ∷ 4 ∷ 5 ∷ 6 ∷ 0 ∷ 0 ∷ 0 ∷ 0 ∷ []

-- Packets of type 2, SSH2_MSG_IGNORE, and then of type 5, SSH2_MSG_SERVICE_REQUEST.
abbrev network : (no_ops : ℕ) → ReadEnvironment
network no_ops = record {
  read_fixed_header_atomic = λ k. (ok, header_of (if ltb k no_ops then 2 else 5));
  read_fixed_header = λ k. (ok, header_of 5);
  sread = λ k n. (ok, []);
  read_text_line = λ k. [];
  decrypt = λ k bytes. (ok, bytes);
  check_mac_ssh = λ number bytes n m. ok;
  read_uint32 = λ bytes. get_elem? bytes 3;
  read_string32 = λ bytes. (ok, bytes);
  range_check_z = λ start n size. leb (start + n) size;
  range_check = λ start n size. leb (start + n) size;
}

abbrev start : ReadState
start = record {
  packet_type = 0;
  pad_length = 0;
  read_seq_no = 0;
  receive_buf_pos = 0;
  receive_buf_end = 0;
  receive_buf_size = 20000;
  packet = [];
  is_secure_read = false;
  auth_blocksize = 20;
  crypt_blocksize = 16;
  is_server = true;
  is_cuteftp = false;
  has_text_diags = false;
  send_closed = false;
  is_fatal = false;
  headers_read = 0;
  error_code = none;
}

-- Three no-op packets are skipped; a fourth one makes the packet behind it an error.
third_skipped : (read_hs_packet_ssh2 (network 3) start 5 5).1 ≡ ok
unfolding read_hs_packet_ssh2 skip_no_ops read_one read_packet_header_ssh2 fetch_header
    handshake_header check_handshake_packet_status open_header check_length check_types
    check_packet_valid read_remainder unprotect decrypt_remainder strip_packet check_type
    move_payload
third_skipped = refl

fourth_refused : (read_hs_packet_ssh2 (network 4) start 5 5).1 ≡ overflow
unfolding read_hs_packet_ssh2 skip_no_ops read_one read_packet_header_ssh2 fetch_header
    handshake_header check_handshake_packet_status open_header check_length check_types
    check_packet_valid read_remainder unprotect decrypt_remainder strip_packet check_type
    move_payload
fourth_refused = refl

read_hs_packet_ssh2-IsAnswer_example :
    let (t, st, n) = read_hs_packet_ssh2 (network 3) start 5 5 in
    (t.headers_read ≤ start.headers_read + 5) × ((is_error st ≡ true) ⊎ IsAnswer start 5 5 t n)
read_hs_packet_ssh2-IsAnswer_example = read_hs_packet_ssh2-IsAnswer (network 3) start 5 5
