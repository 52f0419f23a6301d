-- ===== src/Ssh/Reading/Dispatch.antt =====
-- What the header check lets through and what the dispatch of control messages handles.
use bosh_dotnet.Prelude.{ℕ, ◌≡◌, ◌≢◌, ◌↔◌, inl, inr, true, false, List, [], ◌∷◌, Bool-cases, arith}
use bosh_dotnet.Ssh.Status.{ok}
use bosh_dotnet.Ssh.Reading.{check_packet_valid, is_listed}
use bosh_dotnet.Ssh.Message.Packet.{packet_of, unexpected}

-- The packet types that the dispatch has a branch for.
abbrev pub handled : List ℕ
handled = 80 ∷ 90 ∷ 2 ∷ 4 ∷ 1 ∷ 30 ∷ 32 ∷ 34 ∷ 20 ∷ 21 ∷ 94 ∷ 95 ∷ 98 ∷ 93 ∷ 96 ∷ 97 ∷ []

packet_of-handled : (n : ℕ) → is_listed handled n ≡ false → packet_of n ≡ unexpected n
unfolding packet_of
packet_of-handled n h = ground arith

handled-valid : (n : ℕ) → is_listed handled n ≡ true → check_packet_valid n false ≡ ok
unfolding check_packet_valid
handled-valid n h = ground arith

-- A packet type that the dispatch of control messages has a branch for passes the header check of
-- the data phase.
check_packet_valid-packet_of :
    (n : ℕ) → packet_of n ≢ unexpected n → check_packet_valid n false ≡ ok
check_packet_valid-packet_of n h = elim (Bool-cases (is_listed handled n)) [
  | inl t ↦ handled-valid n t
  | inr t ↦ absurd (h (packet_of-handled n t))
]

-- The packet types that pass the check and have no branch: the answers to global and channel
-- requests and to channel openings.
abbrev pub answers : List ℕ
answers = 81 ∷ 82 ∷ 91 ∷ 92 ∷ 99 ∷ 100 ∷ []

answers-valid :
    (n : ℕ)
    → is_listed answers n ≡ true
    → (check_packet_valid n false ≡ ok) × (packet_of n ≡ unexpected n)
unfolding check_packet_valid packet_of
answers-valid n h = (ground arith, ground arith)

valid-answers :
    (n : ℕ)
    → check_packet_valid n false ≡ ok
    → packet_of n ≡ unexpected n
    → is_listed answers n ≡ true
unfolding check_packet_valid packet_of
valid-answers n v h = ground arith

-- The packet types that pass the header check of the data phase, and that the dispatch of control
-- messages then treats as unexpected, are exactly the success and failure answers to global
-- requests, to channel openings and to channel requests.
pub check_packet_valid_iff :
    (n : ℕ)
    → ((check_packet_valid n false ≡ ok) × (packet_of n ≡ unexpected n))
      ↔ (is_listed answers n ≡ true)
check_packet_valid_iff n = (λ h. valid-answers n h.0 h.1, answers-valid n)
