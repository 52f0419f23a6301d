-- ===== src/Ssh/Channel/Response/Encode.antt =====
-- encodeSendResponse: what becomes of a waiting response, with the channel table unchanged.
use bosh_dotnet.Prelude.{
  ℕ, ◌+◌, ◌≡◌, refl, ◌⊎◌, inl, inr, Bool, true, false, not, ◌&&◌, ◌||◌, List, ◌∷◌, Option, none,
  some, length, ltb, leb, if◌then◌else◌, Bool-cases,
}
use bosh_dotnet.Ssh.Environment.{Environment, IsDocumented, HaveSameTable}
use bosh_dotnet.Ssh.Status.{Status, is_error}
use bosh_dotnet.Ssh.Session.{Session, Response, empty_response}
use bosh_dotnet.Ssh.Channel.Response.{
  encode_send_response, assemble, dispatch, wrapped, starts_buffer, deliver, offset_or_position,
  offset_fits, is_given, response_room,
}

pub HaveSameTable-refl : (s : Session) → HaveSameTable s s
HaveSameTable-refl s = record {
  attributes = refl;
  curr_read_channel = refl;
  curr_write_channel = refl;
  channel_index = refl;
}

HaveSameTable-moved :
    (s : Session) (response : Response) (buffered sent : List (List ℕ))
    → HaveSameTable s (record s { response = response; buffered = buffered; sent = sent })
HaveSameTable-moved s response buffered sent = record {
  attributes = refl;
  curr_read_channel = refl;
  curr_write_channel = refl;
  channel_index = refl;
}

-- The response is cleared and its packet is in the send buffer; or the session is not open, and the
-- network has taken the packet, or has refused it with the error that is returned.
abbrev pub Leaves : Session → List ℕ → Session × Status × ℕ → Type 0
Leaves s packet (t, st, size) =
    (t.response ≡ empty_response)
    × HaveSameTable s t
    × (((t.buffered ≡ packet ∷ s.buffered) × (t.sent ≡ s.sent))
        ⊎ ((t.buffered ≡ s.buffered)
            × (s.is_open ≡ false)
            × (((t.sent ≡ packet ∷ s.sent) × (is_error st ≡ false))
                ⊎ ((t.sent ≡ s.sent) × (is_error st ≡ true)))))

module _ (e : Environment) (doc : IsDocumented e) (s : Session) where
  deliver-Leaves :
      (is_open adjusted : Bool) (packet : List ℕ)
      → s.is_open ≡ is_open
      → Leaves s packet (deliver e s is_open adjusted packet)
  unfolding deliver
  deliver-Leaves false adjusted packet o =
      let same = λ (sent : List (List ℕ)). HaveSameTable-moved s empty_response s.buffered sent in
      elim (Bool-cases (is_error (e.send_packet_ssh2 packet))) [
        | inl t ↦ rw t (refl, same s.sent, inr (refl, o, inr (refl, refl)))
        | inr t ↦ rw t (refl, same (packet ∷ s.sent), inr (refl, o, inl (refl, refl)))
      ]
  deliver-Leaves true adjusted packet o =
      let full = record s {
        response = empty_response;
        send_buf_pos = if adjusted then length packet else s.send_buf_pos + length packet;
        partial_write = true;
        buffered = packet ∷ s.buffered;
      } in
      let table = doc.flushes full in
      (
        doc.keeps_empty full refl,
        record {
          attributes = table.attributes;
          curr_read_channel = table.curr_read_channel;
          curr_write_channel = table.curr_write_channel;
          channel_index = table.channel_index;
        },
        inl (doc.keeps_packets full refl),
      )

  dispatch-Leaves :
      (offset : Option ℕ) (adjusted : Bool) (packet : List ℕ)
      → Leaves s packet (dispatch e s offset adjusted packet)
  unfolding dispatch
  dispatch-Leaves (some offset) adjusted packet =
      (refl, HaveSameTable-moved s empty_response (packet ∷ s.buffered) s.sent, inl (refl, refl))
  dispatch-Leaves none adjusted packet = deliver-Leaves s.is_open adjusted packet refl

  assemble-Leaves :
      (offset : Option ℕ) (at : ℕ)
      → ((assemble e s offset at).0 ≡ s) ⊎ Leaves s (wrapped e s).1 (assemble e s offset at)
  unfolding assemble
  assemble-Leaves offset at = elim (Bool-cases (is_error (wrapped e s).0)) [
    | inl u ↦ inl (rw u refl)
    | inr u ↦ inr (rw u (dispatch-Leaves offset (starts_buffer s at) (wrapped e s).1))
  ]

  -- Either the session is unchanged, with the response still waiting; or the response is cleared, no
  -- channel has changed, and exactly one packet was made of its type and payload by the transport.
  -- That packet is in the send buffer, or the session is not open and the network has taken it; or
  -- the session is not open, the network has refused it, the call returns an error, and the packet
  -- is lost.
  pub encode_send_response-Leaves :
      (offset : Option ℕ)
      → ((encode_send_response e s offset).0 ≡ s)
        ⊎ Leaves s (wrapped e s).1 (encode_send_response e s offset)
  unfolding encode_send_response
  encode_send_response-Leaves offset =
      let at = offset_or_position s offset in
      elim (Bool-cases (not (offset_fits s offset))) [
        | inl u ↦ inl (rw u refl)
        | inr u ↦
            rw u
              (elim (Bool-cases
                (is_given offset && not s.partial_write && ltb s.send_buf_start_ofs at)) [
                  | inl v ↦ inl (rw v refl)
                  | inr v ↦ rw v (elim (Bool-cases (ltb s.send_buf_size (at + response_room s))) [
                    | inl w ↦ inl (rw w refl)
                    | inr w ↦
                        rw w
                          (elim (Bool-cases (
                            not (
                              leb at s.send_buf_start_ofs
                              || (s.partial_write
                                  && ltb (at + response_room s) s.send_buf_size)))) [
                                    | inl x ↦ inl (rw x refl)
                                    | inr x ↦ rw x (assemble-Leaves offset at)
                                  ])
                  ])
                ])
      ]
