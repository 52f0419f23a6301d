-- ===== src/Ssh/Reading/Handshake/Answer.antt =====
-- What a packet that readHSPacketSSH2 returns is like, and how many it takes.
use bosh_dotnet.Prelude.{
  ℕ, zero, suc, ◌+◌, ◌-◌, ◌≤◌, ◌≡◌, refl, sym, ap, subst, ◌∙◌, ◌⊎◌, inl, inr, not, ◌&&◌, true,
  false, List, take, ltb, leb, ◌==◌, Option, none, some, if_either, if_cases, arith,
}
use bosh_dotnet.Ssh.Status.{Status, ok, internal, bad_data, overflow, is_error}
use bosh_dotnet.Ssh.Session.{extra_packet_size}
use bosh_dotnet.Ssh.Reading.{check_packet_valid}
use bosh_dotnet.Ssh.Reading.State.{ReadState, ReadEnvironment}
use bosh_dotnet.Ssh.Reading.Header.{
  get_disconnect_info, disconnect_status, disconnect_with, special_last,
}
use bosh_dotnet.Ssh.Reading.Handshake.{
  is_no_op, wanted_type, refuses_request, read_one, skip_no_ops, least_length, move_payload,
  check_type, strip_packet, read_hs_packet_ssh2,
}
use bosh_dotnet.Ssh.Reading.Handshake.Rounds.{read_one-IsRound, read_type}

-- A packet that is no no-op and passed the check of its type, with one round to spare.
record IsFound (k : ℕ) (s t : ReadState) : Type 0 where
  headers_read : suc t.headers_read ≤ s.headers_read + k
  packet_type : is_no_op t.packet_type ≡ false
  valid : check_packet_valid t.packet_type true ≡ ok

-- What the loop over no-op packets leaves.
record IsSkipped (k : ℕ) (s : ReadState) (r : ReadState × Status × ℕ) : Type 0 where
  headers_read : r.0.headers_read ≤ s.headers_read + k
  receive_buf_size : r.0.receive_buf_size ≡ s.receive_buf_size
  outcome : (is_error r.1 ≡ true) ⊎ IsFound k s r.0

-- What a returned packet is like, `n` bytes of payload behind its type: at most four headers were
-- read, its type is one of the handshake and the expected one, or one that stands for it, and its
-- length is within the bounds.
pub record IsAnswer (s : ReadState) (expected least : ℕ) (t : ReadState) (n : ℕ) : Type 0 where
  pub headers_read : t.headers_read ≤ s.headers_read + 4
  pub packet_type : is_no_op t.packet_type ≡ false
  pub valid : check_packet_valid t.packet_type true ≡ ok
  pub wanted : t.packet_type ≡ wanted_type expected t.packet_type
  pub requested : refuses_request expected t.packet_type ≡ false
  pub long_enough : least ≤ suc n
  pub fits : suc n + extra_packet_size ≤ s.receive_buf_size

equal_types : (a b : ℕ) → not (a == b) ≡ false → a ≡ b
equal_types a b h = ground arith

disconnect_status_error : (n : ℕ) → is_error (disconnect_status n) ≡ true
disconnect_status_error n = ground arith

disconnect_with-error :
    (s : ReadState) (n : Option ℕ)
    → ((disconnect_with s n).0.headers_read ≡ s.headers_read)
      × (is_error (disconnect_with s n).1 ≡ true)
disconnect_with-error s none = (refl, refl)
disconnect_with-error s (some n) = (refl, disconnect_status_error n)

module _ (e : ReadEnvironment) where
  last-IsFound :
      (left : ℕ) (s t : ReadState)
      → t.headers_read ≤ suc s.headers_read
      → (left == 0) ≡ false
      → is_no_op t.packet_type ≡ false
      → check_packet_valid t.packet_type true ≡ ok
      → IsFound (suc left) s t
  last-IsFound left s t few more real valid = record {
    headers_read = ground arith;
    packet_type = real;
    valid = valid;
  }

  skip_no_ops-IsSkipped :
      (k : ℕ) (s : ReadState) (expected : ℕ) → IsSkipped k s (skip_no_ops e k s expected)
  unfolding skip_no_ops
  skip_no_ops-IsSkipped zero s expected = record {
    headers_read = omega arith;
    receive_buf_size = refl;
    outcome = inl refl;
  }
  skip_no_ops-IsSkipped (suc left) s expected =
      let (t, st, n) = read_one e s expected in
      let round = read_one-IsRound e s expected in
      let rest = skip_no_ops-IsSkipped left t expected in
      let P = IsSkipped (suc left) s in
      if_cases P (is_error st) (t, st, 0) _
        (λ wrong. record {
          headers_read = omega (arith, round.headers_read);
          receive_buf_size = round.receive_buf_size;
          outcome = inl wrong;
        })
        (λ fine.
          if_cases P (is_no_op t.packet_type) (skip_no_ops e left t expected) _
            (λ _. record {
              headers_read = omega (arith, round.headers_read, rest.headers_read);
              receive_buf_size = rest.receive_buf_size ∙ round.receive_buf_size;
              outcome = elim rest.outcome [
                | inl wrong ↦ inl wrong
                | inr found ↦ inr (record {
                  headers_read = omega (arith, round.headers_read, found.headers_read);
                  packet_type = found.packet_type;
                  valid = found.valid;
                })
              ];
            })
            (λ real.
              if_cases P (left == 0) (t, overflow, 0) (t, ok, n)
                (λ _. record {
                  headers_read = omega (arith, round.headers_read);
                  receive_buf_size = round.receive_buf_size;
                  outcome = inl refl;
                })
                (λ more. record {
                  headers_read = omega (arith, round.headers_read);
                  receive_buf_size = round.receive_buf_size;
                  outcome = inr (
                      last-IsFound left s t round.headers_read more real
                        (read_type e t t st round.typed fine refl));
                })))

  get_disconnect_info-error :
      (s : ReadState) (stream : List ℕ)
      → ((get_disconnect_info e s stream).0.headers_read ≡ s.headers_read)
        × (is_error (get_disconnect_info e s stream).1 ≡ true)
  unfolding get_disconnect_info
  get_disconnect_info-error s stream = disconnect_with-error s (e.read_uint32 stream)

  -- What the check of the type leaves.
  record IsWanted (s : ReadState) (expected n : ℕ) (r : ReadState × Status × ℕ) : Type 0 where
    headers_read : r.0.headers_read ≡ s.headers_read
    outcome :
        (is_error r.1 ≡ true)
        ⊎ ((r.0 ≡ s)
            × (r.2 ≡ n)
            × ((s.packet_type == 1) ≡ false)
            × (refuses_request expected s.packet_type ≡ false)
            × (s.packet_type ≡ wanted_type expected s.packet_type))

  check_type-IsWanted :
      (s : ReadState) (expected n : ℕ) → IsWanted s expected n (check_type e s expected n)
  unfolding check_type
  check_type-IsWanted s expected n =
      let (t, reason) = get_disconnect_info e s (take n s.packet) in
      let (same, wrong) = get_disconnect_info-error s (take n s.packet) in
      let P = IsWanted s expected n in
      if_cases P (s.packet_type == 1) (t, reason, 0) _
        (λ _. record { headers_read = same; outcome = inl wrong })
        (λ going.
          if_cases P (refuses_request expected s.packet_type) (s, bad_data, 0) _
            (λ _. record { headers_read = refl; outcome = inl refl })
            (λ admitted.
              if_cases P (not (s.packet_type == wanted_type expected s.packet_type))
                (s, bad_data, 0) (s, ok, n)
                (λ _. record { headers_read = refl; outcome = inl refl })
                (λ equal. record {
                  headers_read = refl;
                  outcome = inr (
                    refl,
                    refl,
                    going,
                    admitted,
                    equal_types s.packet_type (wanted_type expected s.packet_type) equal,
                  );
                })))

  -- What the packet is stripped to.
  record IsStripped (s : ReadState) (expected least : ℕ) (r : ReadState × Status × ℕ) : Type 0 where
    headers_read : r.0.headers_read ≡ s.headers_read
    outcome :
        (is_error r.1 ≡ true)
        ⊎ ((r.0.packet_type ≡ s.packet_type)
            × (refuses_request expected s.packet_type ≡ false)
            × (s.packet_type ≡ wanted_type expected s.packet_type)
            × (least ≤ suc r.2)
            × (suc r.2 + extra_packet_size ≤ s.receive_buf_size))

  -- The lengths of a payload that passed.
  payload_fits :
      (n overhead least size : ℕ)
      → ltb n (overhead + least) ≡ false
      → ltb size (n - overhead + extra_packet_size) ≡ false
      → 1 ≤ least
      → (least ≤ suc (n - overhead - 1)) × (suc (n - overhead - 1) + extra_packet_size ≤ size)
  payload_fits n overhead least size long short some_bytes = (ground arith, ground arith)

  move_payload_same :
      (s : ReadState) (payload : ℕ)
      → ((move_payload s payload).headers_read ≡ s.headers_read)
        × ((move_payload s payload).packet_type ≡ s.packet_type)
  unfolding move_payload
  move_payload_same s payload = (ground arith, ground arith)

  least_length_lem :
      (s : ReadState) (least : ℕ) → (s.packet_type == 1) ≡ false → least_length s least ≡ least
  least_length_lem s least h = rw h refl

  strip_packet-IsStripped :
      (s : ReadState) (expected least n : ℕ)
      → 1 ≤ least
      → IsStripped s expected least (strip_packet e s expected least n)
  unfolding strip_packet
  strip_packet-IsStripped s expected least n some_bytes =
      let overhead = 1 + s.pad_length in
      let payload = n - overhead - 1 in
      let t = move_payload s payload in
      let (same_headers, same_type) = move_payload_same s payload in
      let wanted = check_type-IsWanted t expected payload in
      let P = IsStripped s expected least in
      if_cases P (ltb n (overhead + least_length s least)) (s, bad_data, 0) _
        (λ _. record { headers_read = refl; outcome = inl refl })
        (λ long.
          if_cases P (ltb s.receive_buf_size (n - overhead + extra_packet_size)) (s, bad_data, 0) _
            (λ _. record { headers_read = refl; outcome = inl refl })
            (λ short.
              if_either P (not (payload == 0) && not (e.range_check 2 payload s.receive_buf_size))
                (s, internal, 0) _ (record { headers_read = refl; outcome = inl refl })
                (record {
                  headers_read = wanted.headers_read ∙ same_headers;
                  outcome = elim wanted.outcome [
                    | inl wrong ↦ inl wrong
                    | inr (state, count, going, admitted, equal) ↦
                        let started : (s.packet_type == 1) ≡ false =
                          subst (λ m. (m == 1) ≡ false) same_type going in
                        let ample : ltb n (overhead + least) ≡ false =
                          subst (λ m. ltb n (overhead + m) ≡ false)
                            (least_length_lem s least started) long in
                        let (enough, fits) =
                          payload_fits n overhead least s.receive_buf_size ample short some_bytes in
                        inr (
                          ap (λ (r : ReadState). r.packet_type) state ∙ same_type,
                          subst (λ m. refuses_request expected m ≡ false) same_type admitted,
                          subst (λ m. m ≡ wanted_type expected m) same_type equal,
                          subst (λ m. least ≤ suc m) (sym count) enough,
                          subst (λ m. suc m + extra_packet_size ≤ s.receive_buf_size) (sym count)
                              fits,
                        )
                  ];
                })))

  stripped-IsAnswer :
      (s t : ReadState) (expected least : ℕ) (r : ReadState × Status × ℕ)
      → IsFound 5 s t
      → t.receive_buf_size ≡ s.receive_buf_size
      → IsStripped t expected least r
      → (r.0.headers_read ≤ s.headers_read + 5)
        × ((is_error r.1 ≡ true) ⊎ IsAnswer s expected least r.0 r.2)
  stripped-IsAnswer s t expected least r found size stripped = (
    omega (arith, stripped.headers_read, found.headers_read),
    elim stripped.outcome [
      | inl wrong ↦ inl wrong
      | inr (same, admitted, equal, enough, fits) ↦ inr (record {
        headers_read = omega (arith, stripped.headers_read, found.headers_read);
        packet_type = subst (λ m. is_no_op m ≡ false) (sym same) found.packet_type;
        valid = subst (λ m. check_packet_valid m true ≡ ok) (sym same) found.valid;
        wanted = subst (λ m. m ≡ wanted_type expected m) (sym same) equal;
        requested = subst (λ m. refuses_request expected m ≡ false) (sym same) admitted;
        long_enough = enough;
        fits = subst (λ m. suc r.2 + extra_packet_size ≤ m) size fits;
      })
    ],
  )

  one_at_least : (least : ℕ) → not (leb 1 least && leb least 1024) ≡ false → 1 ≤ least
  one_at_least least h = ground arith

  -- The loop, then the packet that it found.
  skipped-IsAnswer :
      (s : ReadState) (expected least : ℕ)
      → 1 ≤ least
      → is_error (skip_no_ops e 5 s expected).1 ≡ false
      → let (t, st, n) = skip_no_ops e 5 s expected in
        let r = strip_packet e t expected least n in
        (r.0.headers_read ≤ s.headers_read + 5)
        × ((is_error r.1 ≡ true) ⊎ IsAnswer s expected least r.0 r.2)
  skipped-IsAnswer s expected least low fine =
      let (t, st, n) = skip_no_ops e 5 s expected in
      let skipped = skip_no_ops-IsSkipped 5 s expected in
      elim skipped.outcome [
        | inl wrong ↦ absurd (ground (arith, wrong, fine))
        | inr found ↦
            stripped-IsAnswer s t expected least (strip_packet e t expected least n) found
              skipped.receive_buf_size (strip_packet-IsStripped t expected least n low)
      ]

  -- The type that the loop starts from says nothing.
  IsAnswer-from :
      (s : ReadState) {expected least n : ℕ} {t : ReadState}
      → IsAnswer (record s { packet_type = 2 }) expected least t n
      → IsAnswer s expected least t n
  IsAnswer-from s a = record {
    headers_read = a.headers_read;
    packet_type = a.packet_type;
    valid = a.valid;
    wanted = a.wanted;
    requested = a.requested;
    long_enough = a.long_enough;
    fits = a.fits;
  }

  -- `readHSPacketSSH2` asks for at most five packet headers. It ends with an error, or with a packet
  -- that is no no-op, found in one of the first four: its type passed the check for the handshake and
  -- is the expected one, or one that stands for it, and its payload is as long as demanded and leaves
  -- the spare room of the receive buffer.
  pub read_hs_packet_ssh2-IsAnswer :
      (s : ReadState) (expected least : ℕ)
      → let (t, st, n) = read_hs_packet_ssh2 e s expected least in
        (t.headers_read ≤ s.headers_read + 5)
        × ((is_error st ≡ true) ⊎ IsAnswer s expected least t n)
  unfolding read_hs_packet_ssh2
  read_hs_packet_ssh2-IsAnswer s expected least =
      let first = record s { packet_type = 2 } in
      let (t, st, n) = skip_no_ops e 5 first expected in
      let skipped = skip_no_ops-IsSkipped 5 first expected in
      let P : ReadState × Status × ℕ → Type 0 = λ r.
        (r.0.headers_read ≤ s.headers_read + 5)
        × ((is_error r.1 ≡ true) ⊎ IsAnswer s expected least r.0 r.2) in
      if_either P (not (leb 1 expected && ltb expected special_last)) (s, internal, 0) _
        (omega arith, inl refl)
        (if_cases P (not (leb 1 least && leb least 1024)) (s, internal, 0) _
          (λ _. (omega arith, inl refl))
          (λ bounded.
            if_cases P (is_error st) (t, st, 0) (strip_packet e t expected least n)
              (λ wrong. (skipped.headers_read, inl wrong))
              (λ fine.
                let (few, answer) =
                  skipped-IsAnswer first expected least (one_at_least least bounded) fine in
                (few, elim answer [ inl wrong ↦ inl wrong | inr a ↦ inr (IsAnswer-from s a) ]))))
