-- ===== src/Ssh/Environment.antt =====
-- What the SSH files call and this repository does not hold (the unchanged remainder of the
-- cryptographic library): limits, the attribute list, bounded copies, the packet writer.
use bosh_dotnet.Prelude.{ℕ, ◌≤◌, ◌≡◌, ◌≢◌, List, [], ◌∷◌, ◌++◌, length, erase_idx, Option, some}
use bosh_dotnet.Ssh.Status.{Status, ok}
use bosh_dotnet.Ssh.Session.{Channel, Attribute, channel, Session, empty_response}

-- A pointer to an item of the attribute list is its position. The destination size of
-- `attribute_copy_params` is `none` for a null destination, and the bytes it returns are those
-- that the destination and its length field receive.
pub record Environment : Type 0 where
  pub failsafe_iterations_max : ℕ
  pub failsafe_iterations_med : ℕ
  pub max_intlength_short : ℕ
  pub max_intlength : ℕ
  pub attribute_copy_params : Option ℕ → List ℕ → Status × List ℕ
  pub add_session_info_composite : List Attribute → Channel → Status × List Attribute
  pub delete_session_info : List Attribute → ℕ → List Attribute
  pub max_response_size : ℕ  -- SSH_MAX_RESPONSESIZE
  pub wrap_packet_ssh2 : List ℕ → Status × List ℕ
  pub send_packet_ssh2 : List ℕ → Status
  pub put_session_data : Session → Session × Status

-- Two sessions with the same channels, selections and next IDs.
pub record HaveSameTable (s t : Session) : Type 0 where
  pub attributes : t.attributes ≡ s.attributes
  pub curr_read_channel : t.curr_read_channel ≡ s.curr_read_channel
  pub curr_write_channel : t.curr_write_channel ≡ s.curr_write_channel
  pub channel_index : t.channel_index ≡ s.channel_index

-- What these functions are documented to do.
pub record IsDocumented (e : Environment) : Type 0 where
  pub copies :
      (size : ℕ) (source : List ℕ)
      → (e.attribute_copy_params (some size) source).0 ≡ ok
      → ((e.attribute_copy_params (some size) source).1 ≡ source) × (length source ≤ size)
  pub adds :
      (l : List Attribute) (c : Channel)
      → (e.add_session_info_composite l c).0 ≡ ok
      → (e.add_session_info_composite l c).1 ≡ l ++ channel c ∷ []
  pub refuses :
      (l : List Attribute) (c : Channel)
      → (e.add_session_info_composite l c).0 ≢ ok
      → (e.add_session_info_composite l c).1 ≡ l
  pub deletes :
      (l : List Attribute) (position : ℕ) → e.delete_session_info l position ≡ erase_idx l position
  -- Flushing the send buffer touches no channel. Where no response waits, it enqueues none and
  -- assembles none behind the data.
  pub flushes : (s : Session) → HaveSameTable s (e.put_session_data s).0
  pub keeps_empty :
      (s : Session)
      → s.response ≡ empty_response
      → (e.put_session_data s).0.response ≡ empty_response
  pub keeps_packets :
      (s : Session)
      → s.response ≡ empty_response
      → ((e.put_session_data s).0.buffered ≡ s.buffered) × ((e.put_session_data s).0.sent ≡ s.sent)
