-- ===== src/Ssh/Tests/Channels.antt =====
-- Runs of the channel management functions.
use bosh_dotnet.Prelude.{
  ℕ, zero, suc, ◌+◌, ◌≡◌, ◌≢◌, ◌↔◌, refl, inl, inr, true, false, List, [], ◌∷◌, none, some, length,
  arith,
}
use bosh_dotnet.Prelude.Items.{Has}
use bosh_dotnet.Ssh.Status.{
  Status, ok, ok_special, duplicate, channel_read, channel_write, channel_both,
}
use bosh_dotnet.Ssh.Session.{
  Channel, Attribute, channel, channels, ids, Session, ssh_channel, ssh_channel_type,
  ssh_channel_active, ssh_max_channels,
}
use bosh_dotnet.Ssh.Channel.Access.{attr_next, attr_prev, within, access_function}
use bosh_dotnet.Ssh.Channel.Access.Cursor.{access_function-access_function}
use bosh_dotnet.Ssh.Channel.Find.{
  number, find_entry, find_channel_by_channel_no, find_channel_by_id, find_channel_attr,
  is_channel_active, get_current_channel_no, get_current_channel_info,
}
use bosh_dotnet.Ssh.Channel.Find.Activity.{OtherActive, is_channel_active_iff}
use bosh_dotnet.Ssh.Channel.Manage.{
  add_channel, select_channel, delete_channel, create_channel, first_index, session_type,
}
use bosh_dotnet.Ssh.Channel.Manage.Invariant.{IsWellFormed}
use bosh_dotnet.Ssh.Channel.Manage.Add.{
  IsFresh, add_channel_ok, add_channel-IsWellFormed, add_channel_error_unchanged, add_channel_limit,
  get_current_channel_no-add_channel,
}
use bosh_dotnet.Ssh.Channel.Manage.Insert.{IsNewChannel, with_channel}
use bosh_dotnet.Ssh.Channel.Manage.Create.{
  IsLeastUnused, create_channel-IsLeastUnused, create_channel-IsWellFormed,
}
use bosh_dotnet.Ssh.Channel.Manage.Delete.{delete_channel-IsWellFormed}
use bosh_dotnet.Ssh.Channel.Manage.Removal.{IsGone, delete_channel-IsGone}
use bosh_dotnet.Ssh.Channel.Manage.LastChannel.{delete_channel-keeps_active}
use bosh_dotnet.Ssh.Channel.Manage.Select.{
  select_channel-IsWellFormed, IsSelected, get_current_channel_info-select_channel,
}
use bosh_dotnet.Ssh.Channel.Attributes.{
  windowcount, windowsize, get_channel_ext_attribute, set_channel_attribute,
  set_channel_attribute_s, set_channel_ext_attribute,
}
use bosh_dotnet.Ssh.Channel.Attributes.Stored.{
  setters-IsWellFormed, get_channel_ext_attribute-set_channel_ext_attribute,
}
use bosh_dotnet.Ssh.Tests.{
  plain, plain-IsDocumented, two_channels, two_channels-IsWellFormed, open_channel, session_of,
}

-- A third channel, number 9.
abbrev third : Session × Status
third = add_channel plain two_channels 9 4096 (115 ∷ []) []

third_ok : third.1 ≡ ok
unfolding add_channel find_channel_by_channel_no find_entry select_channel
third_ok = refl

-- Number 7 is in use.
seven_duplicate : (add_channel plain two_channels 7 4096 (115 ∷ []) []).1 ≡ duplicate
unfolding add_channel find_channel_by_channel_no find_entry
seven_duplicate = refl

seven_found : find_channel_attr plain two_channels (number 7) ≡ some (2, open_channel 2 7)
unfolding find_channel_attr find_entry
seven_found = refl

nine_not_found : find_channel_attr plain two_channels (number 9) ≡ none
unfolding find_channel_attr find_entry
nine_not_found = refl

add_channel_ok_example :
    (c : Channel) × IsNewChannel c (first_index two_channels).channel_index 9 4096 (115 ∷ []) []
    × (third.0 ≡ with_channel (first_index two_channels) c)
    × IsFresh two_channels 9
    × (Has c.channel_id (ids two_channels.attributes) → ⊥)
add_channel_ok_example =
    add_channel_ok plain two_channels 9 4096 (115 ∷ []) [] plain-IsDocumented
      two_channels-IsWellFormed third_ok

add_channel-IsWellFormed_example : IsWellFormed third.0
add_channel-IsWellFormed_example =
    add_channel-IsWellFormed plain two_channels 9 4096 (115 ∷ []) [] plain-IsDocumented
      two_channels-IsWellFormed

add_channel_error_unchanged_example :
    let t = (add_channel plain two_channels 7 4096 (115 ∷ []) []).0 in
    (t.attributes ≡ two_channels.attributes)
    × (t.curr_read_channel ≡ 1)
    × (t.curr_write_channel ≡ 1)
    × (t.max_packet_size ≡ 4096)
add_channel_error_unchanged_example =
    add_channel_error_unchanged plain two_channels 7 4096 (115 ∷ []) [] plain-IsDocumented
      (rw seven_duplicate (λ q. cc))

get_current_channel_no-add_channel_example :
    (get_current_channel_no plain third.0 channel_read ≡ some 9)
    × (get_current_channel_no plain third.0 channel_write ≡ some 9)
get_current_channel_no-add_channel_example =
    get_current_channel_no-add_channel plain two_channels 9 4096 (115 ∷ []) [] plain-IsDocumented
      two_channels-IsWellFormed (omega arith) (omega arith) third_ok

-- A table of 40 channels, numbered from 100 on.
abbrev channels_to : ℕ → List Attribute
channels_to zero = []
channels_to (suc n) = channel (open_channel (suc n) (100 + n)) ∷ channels_to n

abbrev full : Session
full = session_of (channels_to 40)

unused_in_full : find_channel_attr plain full (number 9) ≡ none
unfolding find_channel_attr find_entry
unused_in_full = refl

add_channel_limit_example :
    ((add_channel plain full 9 4096 (115 ∷ []) []).1 ≡ ok)
    × (length (channels (add_channel plain full 9 4096 (115 ∷ []) []).0.attributes)
        ≡ ssh_max_channels + 1)
add_channel_limit_example =
    add_channel_limit plain full 9 4096 (115 ∷ []) plain-IsDocumented refl (λ l c. refl) refl
      unused_in_full (omega arith) refl

create_channel-IsLeastUnused_example :
    (n : ℕ) × IsLeastUnused plain two_channels 5 n
    × (create_channel plain two_channels
        ≡ add_channel plain
            (record two_channels { next_channel_no = n + 1 })
            n
            7680
            session_type
            [])
create_channel-IsLeastUnused_example = create_channel-IsLeastUnused plain two_channels (omega arith)

create_channel-IsWellFormed_example : IsWellFormed (create_channel plain two_channels).0
create_channel-IsWellFormed_example =
    create_channel-IsWellFormed plain two_channels plain-IsDocumented two_channels-IsWellFormed

delete_channel-IsWellFormed_example :
    IsWellFormed (delete_channel plain two_channels 7 channel_write false).0
delete_channel-IsWellFormed_example =
    delete_channel-IsWellFormed plain two_channels 7 channel_write false plain-IsDocumented
      two_channels-IsWellFormed

delete_channel-IsGone_example :
    IsGone two_channels (delete_channel plain two_channels 7 channel_both true).0 (open_channel 2 7)
delete_channel-IsGone_example =
    delete_channel-IsGone plain two_channels 7 channel_both 2 (open_channel 2 7) plain-IsDocumented
      two_channels-IsWellFormed (omega arith) (inr refl) seven_found

some_active : is_channel_active plain two_channels 0 ≡ true
unfolding is_channel_active find_entry
some_active = refl

delete_channel-keeps_active_example :
    ((delete_channel plain two_channels 7 channel_both false).1 ≢ ok_special)
    × (is_channel_active plain (delete_channel plain two_channels 7 channel_both false).0 0 ≡ true)
delete_channel-keeps_active_example =
    delete_channel-keeps_active plain two_channels 7 channel_both plain-IsDocumented
      two_channels-IsWellFormed (omega arith) (omega arith) (rw seven_found (λ q. cc)) some_active

is_channel_active_iff_example :
    (is_channel_active plain two_channels 2 ≡ true) ↔ OtherActive two_channels 2
is_channel_active_iff_example =
    is_channel_active_iff plain two_channels 2 (inr (omega arith)) (omega arith)

select_channel-IsWellFormed_example :
    IsWellFormed (select_channel plain two_channels (number 7) channel_read).0
select_channel-IsWellFormed_example =
    select_channel-IsWellFormed plain two_channels (number 7) channel_read two_channels-IsWellFormed

seven_selected : (select_channel plain two_channels (number 7) channel_write).1 ≡ ok
unfolding select_channel find_channel_by_channel_no find_channel_attr find_entry
seven_selected = refl

get_current_channel_info-select_channel_example :
    IsSelected plain two_channels
      (number 7)
      channel_write
      (select_channel plain two_channels (number 7) channel_write).0
get_current_channel_info-select_channel_example =
    get_current_channel_info-select_channel plain two_channels (number 7) channel_write
      two_channels-IsWellFormed (omega arith) (omega arith) seven_selected

setters-IsWellFormed_example :
    IsWellFormed (set_channel_attribute plain two_channels ssh_channel 2).0
    × IsWellFormed (set_channel_attribute_s plain two_channels ssh_channel (115 ∷ [])).0
    × IsWellFormed (set_channel_ext_attribute plain two_channels windowcount 2).0
setters-IsWellFormed_example =
    setters-IsWellFormed plain two_channels ssh_channel windowcount 2 (115 ∷ [])
      two_channels-IsWellFormed

count_stored : (set_channel_ext_attribute plain two_channels windowcount 42).1 ≡ ok
unfolding set_channel_ext_attribute get_current_channel_info find_channel_by_id find_entry
count_stored = refl

get_channel_ext_attribute-set_channel_ext_attribute_example :
    let stored = (set_channel_ext_attribute plain two_channels windowcount 42).0 in
    (get_channel_ext_attribute plain stored windowcount ≡ (ok, 42))
    × (get_channel_ext_attribute plain stored windowsize
        ≡ get_channel_ext_attribute plain two_channels windowsize)
get_channel_ext_attribute-set_channel_ext_attribute_example =
    get_channel_ext_attribute-set_channel_ext_attribute plain two_channels windowcount windowsize 42
      two_channels-IsWellFormed (omega arith) (omega arith) (inl (refl, refl)) count_stored

-- Both arguments are absent: the cursor goes from the type to the activity and back.
abbrev on_type : Channel
on_type = record (open_channel 1 5) { cursor_pos = ssh_channel_type }

abbrev on_active : Channel
on_active = record on_type { cursor_pos = ssh_channel_active }

moved_on : access_function plain on_type attr_next ≡ (on_active, within true)
unfolding access_function
moved_on = refl

access_function-access_function_example :
    access_function plain on_active attr_prev ≡ (on_type, within true)
access_function-access_function_example =
    access_function-access_function plain on_type on_active (omega arith) refl refl moved_on
