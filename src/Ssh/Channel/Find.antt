-- ===== src/Ssh/Channel/Find.antt =====
-- The searches of ssh2_chn.c over the session's attribute list. A search that meets the limit of
-- FAILSAFE_ITERATIONS_MAX rounds returns NULL (ENSURES_N), or FALSE for the activity test.
pub mod Entries
pub mod Found
pub mod Activity
use bosh_dotnet.Prelude.{
  ℕ, zero, suc, Bool, true, false, not, ◌&&◌, ◌||◌, List, [], ◌∷◌, Option, none, some, length, ltb,
  leb, ◌==◌, if◌then◌else◌,
}
use bosh_dotnet.Ssh.Environment.{Environment}
use bosh_dotnet.Ssh.Status.{ChannelType, channel_none, channel_read, channel_write, channel_both}
use bosh_dotnet.Ssh.Session.{
  Channel, Attribute, channel, other, Session, unused_channel_id, long_max,
}

-- The `channelNo` argument: a number that is not negative, or CRYPT_USE_DEFAULT.
pub data ChannelRef : Type 0 where
  use_default : ChannelRef
  number : ℕ → ChannelRef

-- The loop that all searches share: the first channel that passes the test, with its position.
unfoldable pub find_entry : (Channel → Bool) → ℕ → ℕ → List Attribute → Option (ℕ × Channel)
find_entry test zero position l = none
find_entry test (suc f) position [] = none
find_entry test (suc f) position (other n ∷ l) = find_entry test f (suc position) l
find_entry test (suc f) position (channel c ∷ l) =
    let rest = find_entry test f (suc position) l in if test c then some (position, c) else rest

abbrev pub is_some {ℓ} : {A : Type ℓ} → Option A → Bool
is_some none = false
is_some (some a) = true

abbrev pub is_active_except : ℕ → Channel → Bool
is_active_except excluded c = c.is_active && not (c.channel_id == excluded)

abbrev pub has_channel_no : ChannelRef → Channel → Bool
has_channel_no use_default c = not c.is_write_closed
has_channel_no (number n) c = c.read_channel_no == n || c.write_channel_no == n

abbrev pub has_channel_id : ℕ → Channel → Bool
has_channel_id n c = c.channel_id == n

abbrev pub bytes_eq : List ℕ → List ℕ → Bool
bytes_eq [] [] = true
bytes_eq (x ∷ xs) (y ∷ ys) = x == y && bytes_eq xs ys
bytes_eq _ _ = false

abbrev pub has_addr : List ℕ → Channel → Bool
has_addr addr c = bytes_eq c.arg1 addr

abbrev pub in_range : ChannelRef → Bool
in_range use_default = true
in_range (number n) = leb n long_max

-- The ID that the session selects for one direction.
abbrev pub current_id : ChannelType → Session → ℕ
current_id channel_read s = s.curr_read_channel
current_id _ s = s.curr_write_channel

abbrev pub number_of : ChannelType → Option (ℕ × Channel) → Option ℕ
number_of ty none = none
number_of channel_read (some (position, c)) = some c.read_channel_no
number_of channel_write (some (position, c)) = some c.write_channel_no
number_of ty (some (position, c)) = none

abbrev pub status_of : Option (ℕ × Channel) → ChannelType
status_of none = channel_none
status_of (some (position, c)) = if c.is_write_closed then channel_read else channel_both

module _ (e : Environment) where
  unfoldable pub is_channel_active : Session → ℕ → Bool
  is_channel_active s excluded =
      if excluded == unused_channel_id || ltb excluded e.max_intlength_short
      then is_some (find_entry (is_active_except excluded) e.failsafe_iterations_max 0 s.attributes)
      else false

  unfoldable pub find_channel_attr : Session → ChannelRef → Option (ℕ × Channel)
  find_channel_attr s ref =
      if in_range ref
      then find_entry (has_channel_no ref) e.failsafe_iterations_max 0 s.attributes
      else none

  unfoldable pub find_channel_by_channel_no : Session → ChannelRef → Option (ℕ × Channel)
  unfolding find_channel_attr
  find_channel_by_channel_no s ref = if in_range ref then find_channel_attr s ref else none

  unfoldable pub find_channel_by_id : Session → ℕ → Option (ℕ × Channel)
  find_channel_by_id s n =
      if ltb 0 n && ltb n e.max_intlength_short
      then find_entry (has_channel_id n) e.failsafe_iterations_max 0 s.attributes
      else none

  unfoldable pub find_channel_by_addr : Session → List ℕ → Option (ℕ × Channel)
  find_channel_by_addr s addr =
      if ltb 0 (length addr) && ltb (length addr) e.max_intlength_short
      then find_entry (has_addr addr) e.failsafe_iterations_max 0 s.attributes
      else none

  -- `none` stands for the null channel.
  unfoldable pub get_current_channel_info : Session → ChannelType → Option (ℕ × Channel)
  unfolding find_channel_by_id
  get_current_channel_info s channel_none = none
  get_current_channel_info s ty =
      if current_id ty s == unused_channel_id then none else find_channel_by_id s (current_id ty s)

  -- `none` stands for a negative number: UNUSED_CHANNEL_NO, which the null channel has, or the
  -- internal error for an argument that names no single direction.
  unfoldable pub get_current_channel_no : Session → ChannelType → Option ℕ
  unfolding get_current_channel_info
  get_current_channel_no s ty = number_of ty (get_current_channel_info s ty)

  unfoldable pub get_channel_status_by_channel_no : Session → ℕ → ChannelType
  unfolding find_channel_by_channel_no
  get_channel_status_by_channel_no s n =
      if leb n long_max then status_of (find_channel_by_channel_no s (number n)) else channel_none

  unfoldable pub get_channel_status_by_addr : Session → List ℕ → ChannelType
  unfolding find_channel_by_addr
  get_channel_status_by_addr s addr =
      if ltb 0 (length addr) && ltb (length addr) e.max_intlength_short
      then status_of (find_channel_by_addr s addr)
      else channel_none
