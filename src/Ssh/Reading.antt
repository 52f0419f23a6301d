-- ===== src/Ssh/Reading.antt =====
-- The check of a packet type in the header of a packet: checkPacketValid of ssh2_rd.c.
pub mod Dispatch
pub mod State
pub mod Header
pub mod Handshake
use bosh_dotnet.Prelude.{ℕ, Bool, true, false, ◌||◌, List, [], ◌∷◌, leb, ◌==◌, not, if◌then◌else◌}
use bosh_dotnet.Ssh.Status.{Status, ok, internal, bad_data}

-- validHSPacketTbl, up to the CRYPT_ERROR that ends it.
abbrev pub handshake_packets : List ℕ
handshake_packets =
    1 ∷ 2 ∷ 4 ∷ 5 ∷ 6 ∷ 20 ∷ 21 ∷ 30 ∷ 31 ∷ 30 ∷ 31 ∷ 32 ∷ 33 ∷ 34 ∷ 50 ∷ 51 ∷ 52 ∷ 53 ∷ 60 ∷ 61
    ∷ 90 ∷ 91 ∷ 92 ∷ []

-- validDataPacketTbl, with the messages that KPYM_HACK adds.
abbrev pub data_packets : List ℕ
data_packets =
    1 ∷ 2 ∷ 4 ∷ 20 ∷ 30 ∷ 30 ∷ 32 ∷ 34 ∷ 20 ∷ 21 ∷ 80 ∷ 81 ∷ 82 ∷ 90 ∷ 91 ∷ 92 ∷ 93 ∷ 94 ∷ 95 ∷ 96
    ∷ 97 ∷ 98 ∷ 99 ∷ 100 ∷ []

-- The loop over the table.
abbrev pub is_listed : List ℕ → ℕ → Bool
is_listed [] n = false
is_listed (x ∷ l) n = x == n || is_listed l n

unfoldable pub check_packet_valid : ℕ → Bool → Status
check_packet_valid n is_handshake =
    if not (leb n 255)
    then internal
    else if is_listed (if is_handshake then handshake_packets else data_packets) n
    then ok
    else bad_data
