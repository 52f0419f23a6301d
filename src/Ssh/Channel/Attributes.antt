-- ===== src/Ssh/Channel/Attributes.antt =====
-- Reading and writing the attributes of the current channel: the get/set functions of ssh2_chn.c.
pub mod Stored
use bosh_dotnet.Prelude.{
  ℕ, suc, Bool, true, false, not, ◌&&◌, ◌||◌, List, [], ◌∷◌, Option, none, some, length, set, ltb,
  leb, ◌==◌, if◌then◌else◌,
}
use bosh_dotnet.Ssh.Environment.{Environment}
use bosh_dotnet.Ssh.Status.{Status, ok, internal, not_found, channel_read, channel_write}
use bosh_dotnet.Ssh.Session.{
  AttributeType, ssh_channel, ssh_channel_type, ssh_channel_arg1, ssh_channel_arg2,
  ssh_channel_active, Channel, channel, Session, int_max, max_text_size,
}
use bosh_dotnet.Ssh.Channel.Find.{get_current_channel_info, find_channel_by_id, number}
use bosh_dotnet.Ssh.Channel.Manage.{store, select_channel}

-- SSH_ATTRIBUTE_TYPE
pub data SshAttribute : Type 0 where
  active windowcount windowsize altchannelno : SshAttribute

channel_value : Channel → AttributeType → Status × ℕ
channel_value c ssh_channel = (ok, c.channel_id)
channel_value c ssh_channel_active = (ok, if c.is_active then 1 else 0)
channel_value c _ = (internal, 0)

ext_value : Channel → SshAttribute → Status × ℕ
ext_value c windowcount = (ok, c.window_count)
ext_value c windowsize = (ok, c.window_size)
ext_value c _ = (internal, 0)

unfoldable pub ext_stored : Channel → SshAttribute → ℕ → Channel
ext_stored c active value = record c { is_active = true }
ext_stored c windowcount value = record c { window_count = value }
ext_stored c windowsize value = record c { window_size = value }
ext_stored c altchannelno value = record c { write_channel_no = value }

-- The range that `setChannelExtAttribute` requires of its value; TRUE is 1.
abbrev pub ext_fits : SshAttribute → ℕ → Bool
ext_fits active value = value == 1
ext_fits _ value = ltb value int_max

-- The destination of a text: `none` is a null pointer with length 0.
abbrev pub size_fits : ℕ → Option ℕ → Bool
size_fits limit none = true
size_fits limit (some size) = ltb 0 size && ltb size limit

module _ (e : Environment) where
  value_of : AttributeType → Option (ℕ × Channel) → Status × ℕ
  unfolding channel_value
  value_of attribute none = (not_found, 0)
  value_of attribute (some (position, c)) = channel_value c attribute

  unfoldable pub get_channel_attribute : Session → AttributeType → Status × ℕ
  unfolding value_of
  get_channel_attribute s attribute = value_of attribute (get_current_channel_info e s channel_read)

  channel_text : Channel → AttributeType → Option ℕ → Status × List ℕ
  channel_text c ssh_channel_type size = e.attribute_copy_params size c.type
  channel_text c ssh_channel_arg1 size = e.attribute_copy_params size c.arg1
  channel_text c ssh_channel_arg2 size = e.attribute_copy_params size c.arg2
  channel_text c _ size = (internal, [])

  text_of : AttributeType → Option ℕ → Option (ℕ × Channel) → Status × List ℕ
  unfolding channel_text
  text_of attribute size none = (not_found, [])
  text_of attribute size (some (position, c)) = channel_text c attribute size

  unfoldable pub get_channel_attribute_s : Session → AttributeType → Option ℕ → Status × List ℕ
  unfolding text_of
  get_channel_attribute_s s attribute size =
      if size_fits e.max_intlength_short size
      then text_of attribute size (get_current_channel_info e s channel_read)
      else (internal, [])

  ext_of : SshAttribute → Option (ℕ × Channel) → Status × ℕ
  unfolding ext_value
  ext_of attribute none = (not_found, 0)
  ext_of attribute (some (position, c)) = ext_value c attribute

  unfoldable pub get_channel_ext_attribute : Session → SshAttribute → Status × ℕ
  unfolding ext_of
  get_channel_ext_attribute s attribute =
      ext_of attribute (get_current_channel_info e s channel_read)

  select_id : Session → Option (ℕ × Channel) → Session × Status
  select_id s none = (s, not_found)
  select_id s (some (position, c)) = select_channel e s (number c.write_channel_no) channel_write

  -- Setting the channel ID selects the channel with that ID.
  set_id : Session → AttributeType → ℕ → Session × Status
  unfolding select_id
  set_id s ssh_channel value = select_id s (find_channel_by_id e s value)
  set_id s _ value = (s, internal)

  unfoldable pub set_channel_attribute : Session → AttributeType → ℕ → Session × Status
  unfolding set_id
  set_channel_attribute s attribute value =
      if ltb 0 value && ltb value e.max_intlength_short
      then set_id s attribute value
      else (s, internal)

  store_text : Session → ℕ → Channel → AttributeType → List ℕ → Session × Status
  store_text s position c ssh_channel_type text =
      let copied = e.attribute_copy_params (some max_text_size) text in
      (store s position (record c { type = copied.1 }), copied.0)
  store_text s position c ssh_channel_arg1 text =
      let copied = e.attribute_copy_params (some max_text_size) text in
      (store s position (record c { arg1 = copied.1 }), copied.0)
  store_text s position c ssh_channel_arg2 text =
      let copied = e.attribute_copy_params (some max_text_size) text in
      (store s position (record c { arg2 = copied.1 }), copied.0)
  store_text s position c _ text = (s, internal)

  set_text : Session → AttributeType → List ℕ → Option (ℕ × Channel) → Session × Status
  unfolding store_text
  set_text s attribute text none = (s, not_found)
  set_text s attribute text (some (position, c)) = store_text s position c attribute text

  unfoldable pub set_channel_attribute_s : Session → AttributeType → List ℕ → Session × Status
  unfolding set_text
  set_channel_attribute_s s attribute text =
      if ltb 0 (length text) && leb (length text) max_text_size
      then set_text s attribute text (get_current_channel_info e s channel_read)
      else (s, internal)

  set_ext : Session → SshAttribute → ℕ → Option (ℕ × Channel) → Session × Status
  unfolding ext_stored
  set_ext s attribute value none = (s, not_found)
  set_ext s attribute value (some (position, c)) =
      (store s position (ext_stored c attribute value), ok)

  unfoldable pub set_channel_ext_attribute : Session → SshAttribute → ℕ → Session × Status
  unfolding set_ext
  set_channel_ext_attribute s attribute value =
      if ext_fits attribute value
      then set_ext s attribute value (get_current_channel_info e s channel_read)
      else (s, internal)
