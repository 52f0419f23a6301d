-- ===== src/Ssh/Reading/Handshake/Rounds.antt =====
-- What one round of readHSPacketSSH2 reads.
use bosh_dotnet.Prelude.{
  ℕ, suc, ◌+◌, ◌-◌, ◌≤◌, ◌≡◌, refl, ap, drop, ◌∙◌, ◌⊎◌, inl, inr, not, ◌&&◌, ◌||◌, true, false,
  List, Option, none, some, ltb, leb, ◌==◌, if◌then◌else◌, if_either, if_cases, arith,
}
use bosh_dotnet.Ssh.Status.{Status, ok, internal, bad_data, is_error}
use bosh_dotnet.Ssh.Reading.{check_packet_valid}
use bosh_dotnet.Ssh.Reading.State.{ReadState, ReadEnvironment}
use bosh_dotnet.Ssh.Reading.Header.{
  byte_at, min_padlength_size, header_remainder_size, length_fits, extra_length,
  check_handshake_packet_status, handshake_header, fetch_header, check_types, check_length,
  open_header, read_packet_header_ssh2,
}
use bosh_dotnet.Ssh.Reading.Handshake.{read_remainder, decrypt_remainder, unprotect, read_one}

-- Neither the number of headers nor the buffer size changes.
record Kept (s t : ReadState) : Type 0 where
  headers_read : t.headers_read ≡ s.headers_read
  receive_buf_size : t.receive_buf_size ≡ s.receive_buf_size

-- Nor the type of the packet.
record KeptType (s t : ReadState) : Type 0 where
  kept : Kept s t
  packet_type : t.packet_type ≡ s.packet_type

module _ (e : ReadEnvironment) where
  -- The header passed the check of its type, or there is an error.
  abbrev pub Typed : ReadState → Status → Type 0
  Typed t st = (is_error st ≡ true) ⊎ (check_packet_valid t.packet_type true ≡ ok)

  pub ok_of_no_error : (st : Status) → is_error st ≡ false → st ≡ ok
  ok_of_no_error st h = ground arith

  handshake_header-Kept : (s : ReadState) (expected : ℕ) → Kept s (handshake_header e s expected).0
  unfolding handshake_header check_handshake_packet_status
  handshake_header-Kept s expected = record {
    headers_read = ground arith;
    receive_buf_size = ground arith;
  }

  -- The state, the status and the length that a part of the header leaves.
  record Checked (s : ReadState) (r : ReadState × Status) : Type 0 where
    kept : Kept s r.0
    typed : Typed r.0 r.1

  check_types-Checked : (s : ReadState) (header : List ℕ) → Checked s (check_types e s true header)
  unfolding check_types
  check_types-Checked s header =
      let t = record s { pad_length = byte_at header 4; packet_type = byte_at header 5 } in
      let valid = check_packet_valid t.packet_type true in
      let same : Kept s t = record { headers_read = refl; receive_buf_size = refl } in
      if_either (Checked s) (ltb t.pad_length min_padlength_size || ltb 255 t.pad_length) _ _
        (record { kept = same; typed = inl refl })
        (if_cases (Checked s) (is_error valid) _ _
          (λ wrong. record { kept = same; typed = inl wrong })
          (λ fine.
            if_either (Checked s) (not (t.receive_buf_pos == 0)) (t, internal) _
              (record { kept = same; typed = inl refl })
              (if_either (Checked s)
                (not (e.range_check_z t.receive_buf_pos header_remainder_size t.receive_buf_size))
                (t, internal) (record t { packet = drop 4 header }, ok)
                (record { kept = same; typed = inl refl })
                (record {
                  kept = record { headers_read = refl; receive_buf_size = refl };
                  typed = inr (ok_of_no_error valid fine);
                }))))

  record Opened (s : ReadState) (r : ReadState × Status × ℕ) : Type 0 where
    kept : Kept s r.0
    typed : Typed r.0 r.1

  Kept-refl : (s : ReadState) → Kept s s
  Kept-refl s = record { headers_read = refl; receive_buf_size = refl }

  check_length-Opened :
      (s : ReadState) (header : List ℕ) (n : Option ℕ) → Opened s (check_length e s true header n)
  unfolding check_length
  check_length-Opened s header none = record { kept = Kept-refl s; typed = inl refl }
  check_length-Opened s header (some n) =
      if_either (Opened s) (not (length_fits s n)) (s, bad_data, 0) _
        (record { kept = Kept-refl s; typed = inl refl })
        (if_either (Opened s) _ _ _ (record { kept = Kept-refl s; typed = inl refl })
          (record {
            kept = (check_types-Checked s header).kept;
            typed = (check_types-Checked s header).typed;
          }))

  open_header-Opened : (s : ReadState) (header : List ℕ) → Opened s (open_header e s true header)
  unfolding open_header
  open_header-Opened s header =
      let (st, plain) =
        if s.is_secure_read then e.decrypt s.headers_read header else (ok, header) in
      if_cases (Opened s) (is_error st) _ _
        (λ wrong. record { kept = Kept-refl s; typed = inl wrong })
        (λ _. check_length-Opened s plain (e.read_uint32 plain))

  -- One header more is asked for.
  record IsHeader (s : ReadState) (r : ReadState × Status × ℕ) : Type 0 where
    headers_read : r.0.headers_read ≡ suc s.headers_read
    receive_buf_size : r.0.receive_buf_size ≡ s.receive_buf_size
    typed : Typed r.0 r.1

  read_packet_header_ssh2-IsHeader :
      (s : ReadState) (expected : ℕ) → IsHeader s (read_packet_header_ssh2 e s true expected)
  unfolding read_packet_header_ssh2 fetch_header
  read_packet_header_ssh2-IsHeader s expected =
      let (t, st, header) = handshake_header e s expected in
      let kept = handshake_header-Kept s expected in
      let u = record t { headers_read = suc t.headers_read } in
      let opened = open_header-Opened u header in
      if_cases (IsHeader s) (is_error st) _ _
        (λ wrong. record {
          headers_read = ap suc kept.headers_read;
          receive_buf_size = kept.receive_buf_size;
          typed = inl wrong;
        })
        (λ _. record {
          headers_read = opened.kept.headers_read ∙ ap suc kept.headers_read;
          receive_buf_size = opened.kept.receive_buf_size ∙ kept.receive_buf_size;
          typed = opened.typed;
        })

  read_remainder-KeptType : (s : ReadState) (k : ℕ) → KeptType s (read_remainder e s k).0
  unfolding read_remainder
  read_remainder-KeptType s k = record {
    kept = record { headers_read = ground arith; receive_buf_size = ground arith };
    packet_type = ground arith;
  }

  decrypt_remainder-KeptType : (s : ReadState) (n : ℕ) → KeptType s (decrypt_remainder e s n).0
  unfolding decrypt_remainder
  decrypt_remainder-KeptType s n = record {
    kept = record { headers_read = ground arith; receive_buf_size = ground arith };
    packet_type = ground arith;
  }

  unprotect-KeptType : (s : ReadState) (expected n : ℕ) → KeptType s (unprotect e s expected n).0
  unfolding unprotect
  unprotect-KeptType s expected n =
      let (t, st) = decrypt_remainder e s n in
      let k = decrypt_remainder-KeptType s n in
      if_either (λ (r : ReadState × Status). KeptType s r.0) (not s.is_secure_read) (s, ok) _
        (record { kept = Kept-refl s; packet_type = refl })
        (if_either (λ (r : ReadState × Status). KeptType s r.0) (is_error st) (t, st) _ k
          (if_either (λ (r : ReadState × Status). KeptType s r.0)
            (not (is_error (e.check_mac_ssh t.read_seq_no t.packet n (extra_length t)))) (t, ok) _ k
            k))

  -- The type that passed the check is still there.
  pub read_type :
      (t v : ReadState) (st : Status)
      → Typed t st
      → is_error st ≡ false
      → v.packet_type ≡ t.packet_type
      → check_packet_valid v.packet_type true ≡ ok
  read_type t v st (inl wrong) fine same = cc
  read_type t v st (inr valid) fine same = rw same valid

  -- A round asks for one header at most.
  pub record IsRound (s : ReadState) (r : ReadState × Status × ℕ) : Type 0 where
    pub headers_read : r.0.headers_read ≤ suc s.headers_read
    pub receive_buf_size : r.0.receive_buf_size ≡ s.receive_buf_size
    pub typed : Typed r.0 r.1

  pub read_one-IsRound : (s : ReadState) (expected : ℕ) → IsRound s (read_one e s expected)
  unfolding read_one
  read_one-IsRound s expected =
      let (t, header, n) = read_packet_header_ssh2 e s true expected in
      let h = read_packet_header_ssh2-IsHeader s expected in
      let total = n + extra_length t in
      let (u, rest) = read_remainder e t (total - header_remainder_size) in
      let a = read_remainder-KeptType t (total - header_remainder_size) in
      let (v, checked) = unprotect e u expected n in
      let b = unprotect-KeptType u expected n in
      if_either (IsRound s) (not (s.receive_buf_pos == 0 && s.receive_buf_end == 0))
        (s, internal, 0) _
        (record { headers_read = omega arith; receive_buf_size = refl; typed = inl refl })
        (if_cases (IsRound s) (is_error header) (t, header, 0) _
          (λ wrong. record {
            headers_read = omega (arith, h.headers_read);
            receive_buf_size = h.receive_buf_size;
            typed = inl wrong;
          })
          (λ fine.
            if_either (IsRound s)
              (not (leb header_remainder_size total && ltb total t.receive_buf_size))
              (t, internal, 0) _
              (record {
                headers_read = omega (arith, h.headers_read);
                receive_buf_size = h.receive_buf_size;
                typed = inl refl;
              })
              (if_cases (IsRound s) (is_error rest) (u, rest, 0) _
                (λ wrong. record {
                  headers_read = omega (arith, h.headers_read, a.kept.headers_read);
                  receive_buf_size = a.kept.receive_buf_size ∙ h.receive_buf_size;
                  typed = inl wrong;
                })
                (λ _.
                  if_cases (IsRound s) (is_error checked) (v, checked, 0)
                    (record v { read_seq_no = v.read_seq_no + 1 }, ok, n)
                    (λ wrong. record {
                      headers_read =
                          omega (arith, h.headers_read, a.kept.headers_read, b.kept.headers_read);
                      receive_buf_size =
                          b.kept.receive_buf_size ∙ a.kept.receive_buf_size ∙ h.receive_buf_size;
                      typed = inl wrong;
                    })
                    (λ _. record {
                      headers_read =
                          omega (arith, h.headers_read, a.kept.headers_read, b.kept.headers_read);
                      receive_buf_size =
                          b.kept.receive_buf_size ∙ a.kept.receive_buf_size ∙ h.receive_buf_size;
                      typed =
                          inr (read_type t v header h.typed fine (b.packet_type ∙ a.packet_type));
                    })))))
