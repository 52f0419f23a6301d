-- ===== src/Ssh/Channel/Manage/Select.antt =====
-- selectChannel: what it selects, what its errors leave, and that it keeps the invariant.
use bosh_dotnet.Prelude.{
  ℕ, ◌≤◌, ◌<◌, ◌≡◌, refl, sym, ◌∙◌, ◌≢◌, ◌⊎◌, inl, inr, Bool, true, false, not, ◌&&◌, Option, none,
  some, length, arith, Bool-cases,
}
use bosh_dotnet.Prelude.Items.{Has, All-Has}
use bosh_dotnet.Ssh.Environment.{Environment}
use bosh_dotnet.Ssh.Status.{
  Status, ok, not_found, not_inited, internal, ChannelType, channel_none, channel_read,
  channel_write, channel_both,
}
use bosh_dotnet.Ssh.Session.{Channel, ids, Session}
use bosh_dotnet.Ssh.Session.Ids.{Has-ids_at}
use bosh_dotnet.Ssh.Channel.Find.{
  ChannelRef, in_range, find_channel_attr, get_current_channel_info, current_id,
}
use bosh_dotnet.Ssh.Channel.Find.Found.{
  find_channel_attr-found, find_channel_by_channel_no_lem, get_current_channel_info_at,
}
use bosh_dotnet.Ssh.Channel.Manage.{select_channel, select_found, set_current, is_channel_none}
use bosh_dotnet.Ssh.Channel.Manage.Invariant.{IsWellFormed, Issued}

set_current-IsWellFormed :
    (ty : ChannelType) (c : Channel) (s : Session)
    → IsWellFormed s
    → Has c.channel_id (ids s.attributes)
    → IsWellFormed (set_current ty c s)
unfolding set_current
set_current-IsWellFormed channel_read c s w h = record {
  issued = w.issued;
  distinct = w.distinct;
  read_current = inr h;
  write_current = w.write_current;
  counted = w.counted;
}
set_current-IsWellFormed channel_write c s w h = record {
  issued = w.issued;
  distinct = w.distinct;
  read_current = w.read_current;
  write_current = inr h;
  counted = w.counted;
}
set_current-IsWellFormed _ c s w h = record {
  issued = w.issued;
  distinct = w.distinct;
  read_current = inr h;
  write_current = inr h;
  counted = w.counted;
}

module _ (e : Environment) where
  -- The three ways in which a selection ends.
  abbrev pub Selects : Session → ChannelRef → ChannelType → Session × Status → Type 0
  Selects s ref ty (t, st) =
      ((position : ℕ) × (c : Channel) × (find_channel_attr e s ref ≡ some (position, c))
        × ((c.is_active ≡ true) ⊎ (ty ≡ channel_none))
        × (t ≡ set_current ty c s)
        × (st ≡ ok))
      ⊎ ((t ≡ s) × ((st ≡ not_found) ⊎ (st ≡ not_inited) ⊎ (st ≡ internal)))

  select_found-Selects :
      (s : Session) (ref : ChannelRef) (ty : ChannelType) (o : Option (ℕ × Channel))
      → find_channel_attr e s ref ≡ o
      → Selects s ref ty (select_found e s ty o)
  unfolding select_found
  select_found-Selects s ref ty none h = inr (refl, inl refl)
  select_found-Selects s ref ty (some (k, c)) h =
      elim (Bool-cases (not c.is_active && not (is_channel_none ty))) [
        | inl t ↦ rw t (inr (refl, inr (inl refl)))
        | inr t ↦ rw t (inl (k, c, h, active_or_none ty c.is_active t, refl, refl))
      ]
    where
      active_or_none :
          (ty : ChannelType) (b : Bool)
          → (not b && not (is_channel_none ty)) ≡ false
          → (b ≡ true) ⊎ (ty ≡ channel_none)
      active_or_none channel_none b t = inr refl
      active_or_none channel_read true t = inl refl
      active_or_none channel_write true t = inl refl
      active_or_none channel_both true t = inl refl
      active_or_none channel_read false t = cc
      active_or_none channel_write false t = cc
      active_or_none channel_both false t = cc

  pub select_channel-Selects :
      (s : Session) (ref : ChannelRef) (ty : ChannelType)
      → Selects s ref ty (select_channel e s ref ty)
  unfolding select_channel
  select_channel-Selects s ref ty = elim (Bool-cases (in_range ref)) [
    | inl r ↦
        rw (r, find_channel_by_channel_no_lem e s ref)
          (select_found-Selects s ref ty (find_channel_attr e s ref) refl)
    | inr r ↦ rw r (inr (refl, inr (inr refl)))
  ]

  -- A selection that fails leaves the session as it was.
  pub select_channel_error_unchanged :
      (s : Session) (ref : ChannelRef) (ty : ChannelType)
      → (select_channel e s ref ty).1 ≢ ok
      → (select_channel e s ref ty).0 ≡ s
  select_channel_error_unchanged s ref ty h = elim (select_channel-Selects s ref ty) [
    | inl (k, c, f, a, t, st) ↦ absurd (h st)
    | inr (t, st) ↦ t
  ]

  -- Selecting a channel keeps the table well formed, whatever the call returns.
  pub select_channel-IsWellFormed :
      (s : Session) (ref : ChannelRef) (ty : ChannelType)
      → IsWellFormed s
      → IsWellFormed (select_channel e s ref ty).0
  select_channel-IsWellFormed s ref ty w = elim (select_channel-Selects s ref ty) [
    | inl (k, c, f, a, t, st) ↦ rw t (
        set_current-IsWellFormed ty c s w
          (Has-ids_at c s.attributes k (find_channel_attr-found e s ref k c f).0))
    | inr (t, st) ↦ rw t w
  ]

  -- The current channel of each direction selected is what the search finds in the session before,
  -- and the other direction is as it was. CHANNEL_NONE selects both directions.
  abbrev pub IsSelected : Session → ChannelRef → ChannelType → Session → Type 0
  IsSelected s ref channel_read t =
      (get_current_channel_info e t channel_read ≡ find_channel_attr e s ref)
      × (t.curr_write_channel ≡ s.curr_write_channel)
  IsSelected s ref channel_write t =
      (get_current_channel_info e t channel_write ≡ find_channel_attr e s ref)
      × (t.curr_read_channel ≡ s.curr_read_channel)
  IsSelected s ref _ t =
      (get_current_channel_info e t channel_read ≡ find_channel_attr e s ref)
      × (get_current_channel_info e t channel_write ≡ find_channel_attr e s ref)

  -- The channel that was found is the current one of a direction that holds its ID.
  current_found :
      (s : Session) (ref : ChannelRef) (k : ℕ) (c : Channel) (reads writes size : ℕ)
      (d : ChannelType)
      → IsWellFormed s
      → s.channel_index ≤ e.max_intlength_short
      → length s.attributes < e.failsafe_iterations_max
      → find_channel_attr e s ref ≡ some (k, c)
      → d ≢ channel_none
      → let t = record s {
        curr_read_channel = reads;
        curr_write_channel = writes;
        max_packet_size = size;
      } in
        current_id d t ≡ c.channel_id → get_current_channel_info e t d ≡ find_channel_attr e s ref
  current_found s ref k c reads writes size d w short b f one_side id =
      let t = record s {
        curr_read_channel = reads;
        curr_write_channel = writes;
        max_packet_size = size;
      } in
      let at = (find_channel_attr-found e s ref k c f).0 in
      let issued : Issued s.channel_index c.channel_id =
        All-Has (Issued s.channel_index) c.channel_id (ids s.attributes) w.issued
          (Has-ids_at c s.attributes k at) in
      get_current_channel_info_at e t d k c one_side id at w.distinct issued.0 (omega arith) b
      ∙ sym f

  set_current-IsSelected :
      (s : Session) (ref : ChannelRef) (ty : ChannelType) (k : ℕ) (c : Channel)
      → IsWellFormed s
      → s.channel_index ≤ e.max_intlength_short
      → length s.attributes < e.failsafe_iterations_max
      → find_channel_attr e s ref ≡ some (k, c)
      → IsSelected s ref ty (set_current ty c s)
  unfolding set_current
  set_current-IsSelected s ref channel_read k c w short b f = (
    current_found s ref k c c.channel_id s.curr_write_channel c.max_packet_size channel_read w short
        b f (λ q. cc) refl,
    refl,
  )
  set_current-IsSelected s ref channel_write k c w short b f = (
    current_found s ref k c s.curr_read_channel c.channel_id c.max_packet_size channel_write w short
        b f (λ q. cc) refl,
    refl,
  )
  set_current-IsSelected s ref _ k c w short b f = (
    current_found s ref k c c.channel_id c.channel_id c.max_packet_size channel_read w short b f
        (λ q. cc) refl,
    current_found s ref k c c.channel_id c.channel_id c.max_packet_size channel_write w short b f
        (λ q. cc) refl,
  )

  -- In a well-formed session whose next ID is at most MAX_INTLENGTH_SHORT and whose attribute list is
  -- shorter than FAILSAFE_ITERATIONS_MAX: a selection that succeeds makes the channel that a search
  -- for the number finds current for the directions selected, reading, writing or both, and leaves
  -- the other direction as it was.
  pub get_current_channel_info-select_channel :
      (s : Session) (ref : ChannelRef) (ty : ChannelType)
      → IsWellFormed s
      → s.channel_index ≤ e.max_intlength_short
      → length s.attributes < e.failsafe_iterations_max
      → (select_channel e s ref ty).1 ≡ ok
      → IsSelected s ref ty (select_channel e s ref ty).0
  get_current_channel_info-select_channel s ref ty w short b h =
      elim (select_channel-Selects s ref ty) [
        | inr (t, st) ↦ absurd (ground arith)
        | inl (k, c, f, a, t, st) ↦ rw t (set_current-IsSelected s ref ty k c w short b f)
      ]
