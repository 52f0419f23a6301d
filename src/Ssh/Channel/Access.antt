-- ===== src/Ssh/Channel/Access.antt =====
-- The attribute cursor inside a channel: accessFunction of ssh2_chn.c.
pub mod Cursor
use bosh_dotnet.Prelude.{
  ℕ, zero, suc, Bool, true, false, ◌||◌, List, [], ◌∷◌, Option, none, some, length, get_elem?, ltb,
  ◌==◌, if◌then◌else◌,
}
use bosh_dotnet.Ssh.Environment.{Environment}
use bosh_dotnet.Ssh.Session.{
  AttributeType, ssh_channel, ssh_channel_type, ssh_channel_arg1, ssh_channel_arg2,
  ssh_channel_active, attribute_none, Channel,
}

-- ATTR_TYPE
pub data AttrType : Type 0 where
  attr_none attr_prev attr_next : AttrType

-- What `*value` and the return code say: the selected attribute, whether the move stayed inside
-- the channel, or an internal error.
pub data Access : Type 0 where
  selected : AttributeType → Access
  within : Bool → Access
  internal_error : Access

abbrev pub attribute_order_list : List AttributeType
attribute_order_list =
    ssh_channel ∷ ssh_channel_type ∷ ssh_channel_arg1 ∷ ssh_channel_arg2 ∷ ssh_channel_active
    ∷ attribute_none ∷ attribute_none ∷ []

abbrev pub attribute_code : AttributeType → ℕ
attribute_code attribute_none = 0
attribute_code ssh_channel = 1
attribute_code ssh_channel_type = 2
attribute_code ssh_channel_arg1 = 3
attribute_code ssh_channel_arg2 = 4
attribute_code ssh_channel_active = 5

abbrev pub same_attribute : AttributeType → AttributeType → Bool
same_attribute a b = attribute_code a == attribute_code b

-- The inner loop: the place of the attribute, or of the first CRYPT_ATTRIBUTE_NONE.
order_index : List AttributeType → AttributeType → ℕ
order_index [] t = 0
order_index (a ∷ order) t =
    let rest = order_index order t in
    if same_attribute a t || same_attribute a attribute_none then 0 else suc rest

-- `none` is CRYPT_ATTRIBUTE_NONE.
order_at : ℕ → Option AttributeType
order_at i = elim (get_elem? attribute_order_list i) [
  | none ↦ none
  | some a ↦ if same_attribute a attribute_none then none else some a
]

neighbour : AttrType → ℕ → Option AttributeType
unfolding order_at
neighbour attr_prev zero = none
neighbour attr_prev (suc i) = order_at i
neighbour _ i = order_at (suc i)

-- The attribute's successor or predecessor in the list, present or not.
pub step : AttrType → AttributeType → Option AttributeType
unfolding order_index neighbour order_at
step get t = elim (order_at (order_index attribute_order_list t)) [
  | none ↦ none
  | some a ↦ neighbour get (order_index attribute_order_list t)
]

abbrev pub is_present : Channel → AttributeType → Bool
is_present c ssh_channel_arg1 = ltb 0 (length c.arg1)
is_present c ssh_channel_arg2 = ltb 0 (length c.arg2)
is_present c _ = true

pub data Walk : Type 0 where
  stands_at : AttributeType → Walk
  edge overrun : Walk

-- The outer loop, on FAILSAFE_ITERATIONS_MED rounds; the round that finds the attribute must not
-- be the last one.
pub walk : Channel → AttrType → ℕ → AttributeType → Walk
unfolding step
walk c get zero t = overrun
walk c get (suc f) t = elim (step get t) [
  | none ↦ edge
  | some t' ↦
      let onward = walk c get f t' in
      let found : Walk = elim f [ zero ↦ overrun | suc g ↦ stands_at t' ] in
      if is_present c t' then found else onward
]

-- The cursor goes to the first attribute when the list has just moved onto the channel.
abbrev pub settle : Channel → Channel
settle c = if c.cursor_moved then record c { cursor_pos = ssh_channel; cursor_moved = false } else c

finish : Channel → Walk → Channel × Access
finish c (stands_at t) = (record c { cursor_pos = t }, within true)
finish c edge = (c, within false)
finish c overrun = (c, internal_error)

unfoldable pub access_function : Environment → Channel → AttrType → Channel × Access
unfolding walk finish
access_function e c attr_none = (settle c, selected (settle c).cursor_pos)
access_function e c get =
    finish (settle c) (walk (settle c) get e.failsafe_iterations_med (settle c).cursor_pos)
