-- ===== src/Ssh/Message/Address.antt =====
-- readAddressAndPort of ssh2_msgs.c, which getAddressAndPort calls and, under KPYM_HACK, nothing else.
use bosh_dotnet.Prelude.{
  ℕ, ◌+◌, ◌-◌, ◌||◌, List, [], ◌∷◌, ◌++◌, length, ltb, leb, ◌==◌, if◌then◌else◌,
}
use bosh_dotnet.Prelude.Decimal.{decimal}
use bosh_dotnet.Ssh.Status.{Status, ok, bad_data, is_error}
use bosh_dotnet.Ssh.Session.{max_text_size}

-- The readers of the library's streams: a status, what was read, and the bytes that are left.
pub record Reader : Type 0 where
  pub read_string32 : List ℕ → Status × List ℕ × List ℕ
  pub read_uint32 : List ℕ → Status × ℕ × List ℕ
  pub read_byte : List ℕ → Status × ℕ × List ℕ

-- ":%d", for a port of at most five digits.
abbrev port_text : ℕ → List ℕ
port_text port = 58 ∷ decimal 4 port

-- The host, with the port behind it if the two fit in a text.
host_info : (host : List ℕ) → (port : ℕ) → List ℕ
host_info host port =
    if leb (length host + length (port_text port)) max_text_size
    then host ++ port_text port
    else host

-- A host of 1 to CRYPT_MAX_TEXTSIZE - 4 bytes, and a port from 1 to 65534.
unfoldable pub get_address_and_port : Reader → List ℕ → Status × List ℕ
unfolding host_info
get_address_and_port r stream =
    let (st, host, rest) = r.read_string32 stream in
    let (port_st, port, end) = r.read_uint32 rest in
    if is_error st || length host == 0 || ltb (max_text_size - 4) (length host)
    then (bad_data, [])
    else if is_error port_st || port == 0 || leb 65535 port
    then (bad_data, [])
    else (ok, host_info host port)
