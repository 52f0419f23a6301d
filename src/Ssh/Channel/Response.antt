-- ===== src/Ssh/Channel/Response.antt =====
-- Enqueued responses: the last part of ssh2_chn.c. One response waits at a time; it is assembled
-- as a packet behind other data, sent directly, or put into the send buffer and flushed.
pub mod Enqueue
pub mod Encode
use bosh_dotnet.Prelude.{
  ℕ, zero, suc, ◌+◌, ◌-◌, ◌*◌, ◌/◌, ◌%◌, ◌^◌, Bool, true, false, not, ◌&&◌, ◌||◌, List, [], ◌∷◌,
  ◌++◌, Option, none, some, length, ltb, leb, ◌==◌, if◌then◌else◌,
}
use bosh_dotnet.Ssh.Environment.{Environment}
use bosh_dotnet.Ssh.Status.{Status, ok, internal, is_error}
use bosh_dotnet.Ssh.Session.{
  Session, Response, empty_response, long_max, ssh2_header_size, max_hash_size, max_iv_size,
}

-- writeUint32: four bytes, the highest first.
unfoldable pub uint32_bytes : ℕ → List ℕ
uint32_bytes n = n / 2 ^ 24 % 256 ∷ n / 2 ^ 16 % 256 ∷ n / 2 ^ 8 % 256 ∷ n % 256 ∷ []

-- CRYPT_UNUSED as the 32-bit word that a parameter of it would be written as.
abbrev pub crypt_unused : ℕ
crypt_unused = 4294967195

-- The guarded writes of `enqueueResponse`.
unfoldable pub response_payload : ℕ → ℕ → ℕ → ℕ → ℕ → List ℕ
response_payload no_params n param1 param2 param3 =
    (if ltb 0 no_params then uint32_bytes n else [])
    ++ (if ltb 1 no_params then uint32_bytes param1 else [])
    ++ (if ltb 2 no_params then uint32_bytes param2 else [])
    ++ (if ltb 3 no_params then uint32_bytes param3 else [])

-- The room that a response needs behind an offset, as the two ENSURES count it.
abbrev pub response_room : Session → ℕ
response_room s = ssh2_header_size + 16 + length s.response.payload + max_hash_size + max_iv_size

-- The packet goes to the start of the buffer, where the position only leaves room for the header
-- of a data packet (`adjustedStartOffset`).
abbrev pub starts_buffer : Session → ℕ → Bool
starts_buffer s offset = s.is_open && offset == s.send_buf_start_ofs

-- The offset that the caller gives, if it gives one, lies in the buffer.
abbrev pub offset_fits : Session → Option ℕ → Bool
offset_fits s none = true
offset_fits s (some offset) = ltb offset s.send_buf_size

abbrev pub is_given : Option ℕ → Bool
is_given none = false
is_given (some offset) = true

abbrev pub offset_or_position : Session → Option ℕ → ℕ
offset_or_position s none = s.send_buf_pos
offset_or_position s (some offset) = offset

module _ (e : Environment) where
  unfoldable pub enqueue_response : Session → ℕ → ℕ → ℕ → ℕ → ℕ → ℕ → Session × Status
  unfolding response_payload
  enqueue_response s type no_params n param1 param2 param3 =
      let payload = response_payload no_params n param1 param2 param3 in
      if not (ltb 0 type && leb type 255 && leb no_params 4 && leb n long_max)
      then (s, internal)
      else if not (s.response.type == 0)
      then (s, internal)
      else if ltb e.max_response_size (length payload)
      then (record s { response = record { type = type; payload = s.response.payload } }, internal)
      else (record s { response = record { type = type; payload = payload } }, ok)

  -- The response as a packet: the transport wraps the type byte and the payload.
  abbrev pub wrapped : Session → Status × List ℕ
  wrapped s = e.wrap_packet_ssh2 (s.response.type ∷ s.response.payload)

  -- A packet that does not ride on other data: past the send buffer during the handshake, and
  -- through it once the session is open. The response is cleared before, so that a packet which the
  -- network refuses is lost.
  pub deliver : Session → Bool → Bool → List ℕ → Session × Status × ℕ
  deliver s false adjusted packet =
      let status = e.send_packet_ssh2 packet in
      let left = if is_error status then s.sent else packet ∷ s.sent in
      (record s { response = empty_response; sent = left }, status, 0)
  deliver s true adjusted packet =
      let flushed = e.put_session_data (record s {
        response = empty_response;
        send_buf_pos = if adjusted then length packet else s.send_buf_pos + length packet;
        partial_write = true;
        buffered = packet ∷ s.buffered;
      }) in
      (flushed.0, flushed.1, 0)

  -- What follows a packet that was assembled without error.
  pub dispatch : Session → Option ℕ → Bool → List ℕ → Session × Status × ℕ
  unfolding deliver
  dispatch s (some offset) adjusted packet =
      (record s { response = empty_response; buffered = packet ∷ s.buffered }, ok, length packet)
  dispatch s none adjusted packet = deliver s s.is_open adjusted packet

  pub assemble : Session → Option ℕ → ℕ → Session × Status × ℕ
  unfolding dispatch
  assemble s offset send_buf_offset =
      if is_error (wrapped s).0
      then (s, (wrapped s).0, 0)
      else dispatch s offset (starts_buffer s send_buf_offset) (wrapped s).1

  -- `none` is CRYPT_UNUSED. The last component is `*responseSize`.
  unfoldable pub encode_send_response : Session → Option ℕ → Session × Status × ℕ
  unfolding assemble
  encode_send_response s offset =
      let at = offset_or_position s offset in
      if not (offset_fits s offset)
      then (s, internal, 0)
      else if is_given offset && not s.partial_write && ltb s.send_buf_start_ofs at
      then (s, ok, 0)
      else if ltb s.send_buf_size (at + response_room s)
      then (s, internal, 0)
      else if not (
          leb at s.send_buf_start_ofs
          || (s.partial_write && ltb (at + response_room s) s.send_buf_size))
      then (s, internal, 0)
      else assemble s offset at

  unfoldable pub send_enqueued_response : Session → Session × Status
  unfolding encode_send_response
  send_enqueued_response s = let (t, status, size) = encode_send_response s none in (t, status)

  unfoldable pub enqueue_channel_data : Session → ℕ → ℕ → ℕ → Session × Status
  unfolding enqueue_response send_enqueued_response
  enqueue_channel_data s type n param =
      let enqueued = enqueue_response s type 2 n param crypt_unused crypt_unused in
      if not (ltb 0 type && leb type 255 && leb n long_max)
      then (s, internal)
      else if is_error enqueued.1
      then enqueued
      else send_enqueued_response enqueued.0

  -- The bytes appended, or an error.
  unfoldable pub append_channel_data : Session → ℕ → Session × Status × ℕ
  unfolding encode_send_response
  append_channel_data s offset =
      if ltb offset s.send_buf_size then encode_send_response s (some offset) else (s, internal, 0)
