-- ===== src/Ssh/Message/Open/Accepted.antt =====
-- processChannelOpen from the bytes of the message: what it accepts, and what is then open.
use bosh_dotnet.Prelude.{
  ℕ, ◌+◌, ◌-◌, ◌≤◌, ◌<◌, ◌≡◌, Bool, true, false, not, ◌||◌, List, [], some, length, ltb, ◌==◌,
  if◌then◌else◌, Bool-cases, inl, inr, arith,
}
use bosh_dotnet.Ssh.Environment.{Environment, IsDocumented}
use bosh_dotnet.Ssh.Status.{Status, ok, is_error}
use bosh_dotnet.Ssh.Session.{Session, long_max, max_text_size, extra_packet_size}
use bosh_dotnet.Ssh.Channel.Find.{bytes_eq}
use bosh_dotnet.Ssh.Channel.Manage.{session_type}
use bosh_dotnet.Ssh.Channel.Manage.Invariant.{IsWellFormed}
use bosh_dotnet.Ssh.Message.Address.{Reader, get_address_and_port}
use bosh_dotnet.Ssh.Message.Open.{
  smaller, open_on, open_with, process_channel_open, forwarding_type,
}
use bosh_dotnet.Ssh.Message.Open.Opened.{IsOpened, add_opened-IsOpened}

-- What accepting a request says: its packet size is in range, the session is a server's, and the
-- channel is open, with packets of at most the room in the receive buffer.
abbrev pub IsAccepted : Environment → Session → Session → ℕ → ℕ → List ℕ → Type 0
IsAccepted e s t n size type =
    (1024 ≤ size)
    × (size ≤ 1048576)
    × (s.is_server ≡ true)
    × IsOpened e s t n (smaller size (s.receive_buf_size - extra_packet_size)) type

module _ (e : Environment) (doc : IsDocumented e) (r : Reader) (s : Session) where
  -- The session is well formed, and its next ID and its list are below the limits of the searches.
  abbrev HasRoom : Type 0
  HasRoom =
      IsWellFormed s
      × (s.channel_index + 1 < e.max_intlength_short)
      × (length s.attributes + 1 < e.failsafe_iterations_max)

  open_on-IsOpened :
      (type : List ℕ) (forwards : Bool) (n size : ℕ) (stream : List ℕ)
      → HasRoom
      → n ≤ long_max
      → (open_on e r s type forwards (some n) size stream).1 ≡ ok
      → (s.is_server ≡ true)
        × IsOpened e s
            (open_on e r s type forwards (some n) size stream).0
            n
            (smaller size (s.receive_buf_size - extra_packet_size))
            type
  unfolding open_on
  open_on-IsOpened type forwards n size stream (w, short, few) m o =
      let read : Status × List ℕ = if forwards then get_address_and_port r stream else (ok, []) in
      let clamped = smaller size (s.receive_buf_size - extra_packet_size) in
      elim (Bool-cases (is_error read.0)) [
        | inl t ↦ let fine : read.0 ≡ ok = rw t at o in cc (rw fine at t)
        | inr t ↦ elim (Bool-cases (not s.is_server)) [
          | inl u ↦ cc (rw (t, u) at o)
          | inr u ↦
              let server : s.is_server ≡ true = ground arith in
              rw (t, u)
                (
                  server,
                  add_opened-IsOpened e doc s n clamped type forwards read.1 w short few m
                      (rw (t, u) at o),
                )
        ]
      ]

  open_with-IsAccepted :
      (type : List ℕ) (forwards : Bool) (n window size : ℕ)
      (stream after after_window rest : List ℕ)
      → HasRoom
      → r.read_uint32 stream ≡ (ok, n, after)
      → r.read_uint32 after ≡ (ok, window, after_window)
      → r.read_uint32 after_window ≡ (ok, size, rest)
      → n ≤ long_max
      → (open_with e r s type forwards stream).1 ≡ ok
      → IsAccepted e s (open_with e r s type forwards stream).0 n size type
  unfolding open_with
  open_with-IsAccepted type forwards n window size stream after after_window rest room a b c m o =
      elim (Bool-cases (ltb size 1024 || ltb 1048576 size)) [
        | inl t ↦ cc (rw (a, b, c, t) at o)
        | inr t ↦
            let low : 1024 ≤ size = ground arith in
            let high : size ≤ 1048576 = ground arith in
            let opened = open_on-IsOpened type forwards n size rest room m (rw (a, b, c, t) at o) in
            rw (a, b, c, t) (low, high, opened.0, opened.1)
      ]

  -- A channel open message from which the reader takes a type, a channel number in range, a window
  -- size and a packet size, to a well-formed session whose next ID and list are below the limits of
  -- the searches. If `processChannelOpen` returns CRYPT_OK, the packet size is from 1024 to 1048576
  -- and the session is a server's, and a new channel is at the end of the table. It is active and
  -- current for both directions, it has the number and type of the message, the packet size of the
  -- message or the room in the receive buffer if that is smaller, and a full window of the size that
  -- the session gives out.
  pub process_channel_open-IsAccepted :
      (type : List ℕ) (n window size : ℕ) (stream behind after after_window rest : List ℕ)
      → IsWellFormed s
      → s.channel_index + 1 < e.max_intlength_short
      → length s.attributes + 1 < e.failsafe_iterations_max
      → r.read_string32 stream ≡ (ok, type, behind)
      → r.read_uint32 behind ≡ (ok, n, after)
      → r.read_uint32 after ≡ (ok, window, after_window)
      → r.read_uint32 after_window ≡ (ok, size, rest)
      → n ≤ long_max
      → (process_channel_open e r s stream).1 ≡ ok
      → IsAccepted e s (process_channel_open e r s stream).0 n size type
  unfolding process_channel_open
  process_channel_open-IsAccepted type n window size stream behind after after_window rest w short
        few h a b c m o =
      let accepts = λ (forwards : Bool).
        open_with-IsAccepted type forwards n window size behind after after_window rest
          (w, short, few) a b c m in
      elim (Bool-cases (length type == 0 || ltb max_text_size (length type))) [
        | inl t ↦ cc (rw (h, t) at o)
        | inr t ↦ elim (Bool-cases (bytes_eq type session_type)) [
          | inl u ↦ rw (h, t, u) (accepts false (rw (h, t, u) at o))
          | inr u ↦ elim (Bool-cases (bytes_eq type forwarding_type)) [
            | inl v ↦ rw (h, t, u, v) (accepts true (rw (h, t, u, v) at o))
            | inr v ↦ cc (rw (h, t, u, v) at o)
          ]
        ]
      ]
