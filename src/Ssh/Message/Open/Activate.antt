-- ===== src/Ssh/Message/Open/Activate.antt =====
-- The activation at the end of processChannelOpen: a channel at the end of the table becomes
-- active, gets its window and is selected.
use bosh_dotnet.Prelude.{
  ℕ, ◌+◌, ◌≤◌, ◌<◌, ◌≡◌, refl, ap, ◌∙◌, Bool, true, false, List, [], ◌∷◌, ◌++◌, some, length,
  length-append, set, get_elem?, get_elem?-append_last, le→leb, if◌then◌else◌, Bool-cases, inl, inr,
  arith, pos, pos_part, ◌-ℤ◌,
}
use bosh_dotnet.Prelude.Items.{All, All-Has}
use bosh_dotnet.Ssh.Environment.{Environment}
use bosh_dotnet.Ssh.Status.{Status, ok, is_error, channel_read, channel_both}
use bosh_dotnet.Ssh.Session.{
  Session, Channel, Attribute, channel, channels, ids, ssh_channel, long_max,
}
use bosh_dotnet.Ssh.Session.Ids.{Has-ids_at}
use bosh_dotnet.Ssh.Channel.Find.{
  number, has_channel_no, get_current_channel_info, find_channel_attr,
}
use bosh_dotnet.Ssh.Channel.Find.Entries.{find_entry-append}
use bosh_dotnet.Ssh.Channel.Find.Found.{get_current_channel_info_at}
use bosh_dotnet.Ssh.Channel.Manage.{select_channel, set_current}
use bosh_dotnet.Ssh.Channel.Manage.Invariant.{Issued}
use bosh_dotnet.Ssh.Channel.Manage.Select.{select_channel-Selects}
use bosh_dotnet.Ssh.Channel.Attributes.{
  active, windowcount, windowsize, SshAttribute, ext_stored, set_channel_ext_attribute,
}
use bosh_dotnet.Ssh.Channel.Attributes.Stored.{
  setters-IsWellFormed, set_channel_ext_attribute_ok, ext_stored-id,
}
use bosh_dotnet.Ssh.Message.{get_window_size}
use bosh_dotnet.Ssh.Message.Open.{and_then, fill_window, size_window, activate}
use bosh_dotnet.Ssh.Message.Window.{IsReachable, not_error}

set-append_last :
    (l : List Attribute) (a b : Attribute) → set (l ++ a ∷ []) (length l) b ≡ l ++ b ∷ []
set-append_last [] a b = refl
set-append_last (x ∷ l) a b = ap (◌∷◌ x) (set-append_last l a b)

and_then_ok :
    (r : Session × Status) (step : Session → Session × Status)
    → (and_then r step).1 ≡ ok
    → (r.1 ≡ ok) × (and_then r step ≡ step r.0)
and_then_ok r step h = elim (Bool-cases (is_error r.1)) [
  | inl t ↦ let q : r.1 ≡ ok = rw t at h in cc (rw q at t)
  | inr t ↦ (not_error r.1 t, rw t refl)
]

-- A session whose last channel is the current one for reading.
pub record Holds (e : Environment) (s : Session) (l : List Attribute) (c : Channel) : Type 0 where
  pub attributes : s.attributes ≡ l ++ channel c ∷ []
  pub read_current : s.curr_read_channel ≡ c.channel_id
  pub reachable : IsReachable e s

module _ (e : Environment) (l : List Attribute) where
  Holds-current :
      (s : Session) (c : Channel)
      → Holds e s l c
      → get_current_channel_info e s channel_read ≡ some (length l, c)
  Holds-current s c h =
      let (w, short, b) = h.reachable in
      let at : get_elem? s.attributes (length l) ≡ some (channel c) =
        rw h.attributes (get_elem?-append_last l (channel c)) in
      let issued : Issued s.channel_index c.channel_id =
        All-Has (Issued s.channel_index) c.channel_id (ids s.attributes) w.issued
          (Has-ids_at c s.attributes (length l) at) in
      get_current_channel_info_at e s channel_read (length l) c (λ q. cc) h.read_current at
        w.distinct issued.0 (omega arith) b

  stored-Holds :
      (s : Session) (c : Channel) (attribute : SshAttribute) (value : ℕ)
      → Holds e s l c
      → (set_channel_ext_attribute e s attribute value).1 ≡ ok
      → let t = (set_channel_ext_attribute e s attribute value).0 in
        Holds e t l (ext_stored c attribute value) × (t.limits_window ≡ s.limits_window)
  stored-Holds s c attribute value h o =
      let (k, c', q, t) = set_channel_ext_attribute_ok e s attribute value o in
      let here = Holds-current s c h in
      let (w, short, b) = h.reachable in
      let place : k ≡ length l = cc in
      let same : c' ≡ c = cc in
      let d = ext_stored c attribute value in
      let kept = (setters-IsWellFormed e s ssh_channel attribute value [] w).2 in
      let table : (set_channel_ext_attribute e s attribute value).0.attributes
          ≡ l ++ channel d ∷ [] =
        rw (t, place, same, h.attributes) (set-append_last l (channel c) (channel d)) in
      let size : length (l ++ channel d ∷ []) ≡ length s.attributes =
        rw h.attributes
          (omega (arith, length-append l (channel c ∷ []), length-append l (channel d ∷ []))) in
      (
        record {
          attributes = table;
          read_current = rw t (h.read_current ∙ ext_stored-id c attribute value);
          reachable = (kept, rw t short, rw table (omega (arith, size)));
        },
        rw t refl,
      )

  -- The channel as the activation leaves it.
  abbrev pub opened : Channel → ℕ → Channel
  opened c window = record c { is_active = true; window_size = window; window_count = window }

  find-last :
      (s : Session) (n : ℕ) (c : Channel)
      → s.attributes ≡ l ++ channel c ∷ []
      → length l < e.failsafe_iterations_max
      → All (λ d. has_channel_no (number n) d ≡ false) (channels l)
      → c.read_channel_no ≡ n
      → n ≤ long_max
      → find_channel_attr e s (number n) ≡ some (length l, c)
  unfolding find_channel_attr
  find-last s n c a b fresh r m =
      let has : has_channel_no (number n) c ≡ true = ground arith in
      let here : 0 + length l ≡ length l = omega arith in
      rw (le→leb n long_max m, a)
        (find_entry-append (has_channel_no (number n)) e.failsafe_iterations_max 0 l c fresh has b
          ∙ ap (λ x. some (x, c)) here)

  pub get_window_size-same :
      (s t : Session)
      → t.limits_window ≡ s.limits_window
      → get_window_size e t ≡ get_window_size e s
  unfolding get_window_size
  get_window_size-same s t h =
      ap (λ (b : Bool). if b then 16777216 else pos_part (pos e.max_intlength -ℤ pos 8192)) h

  -- An activation that succeeds leaves the channel active, with a full window, and selected.
  pub activate_ok :
      (s : Session) (n : ℕ) (c : Channel)
      → Holds e s l c
      → length l < e.failsafe_iterations_max
      → All (λ d. has_channel_no (number n) d ≡ false) (channels l)
      → c.read_channel_no ≡ n
      → n ≤ long_max
      → (activate e s n).1 ≡ ok
      → let t = (activate e s n).0 in
        let d = opened c (get_window_size e s) in
        (t.attributes ≡ l ++ channel d ∷ [])
        × (t.curr_read_channel ≡ d.channel_id)
        × (t.curr_write_channel ≡ d.channel_id)
        × (t.max_packet_size ≡ d.max_packet_size)
        × (t.limits_window ≡ s.limits_window)
  unfolding activate size_window fill_window ext_stored set_current
  activate_ok s n c h b fresh r m o =
      let r1 = set_channel_ext_attribute e s active 1 in
      let (o1, q1) = and_then_ok r1 (λ t. size_window e t n) o in
      let (h1, w1) = stored-Holds s c active 1 h o1 in
      let c1 = record c { is_active = true } in
      let r2 = set_channel_ext_attribute e r1.0 windowsize (get_window_size e r1.0) in
      let (o2, q2) = and_then_ok r2 (λ t. fill_window e t n) (rw q1 at o) in
      let (h2, w2) = stored-Holds r1.0 c1 windowsize (get_window_size e r1.0) h1 o2 in
      let c2 = record c1 { window_size = get_window_size e r1.0 } in
      let r3 = set_channel_ext_attribute e r2.0 windowcount (get_window_size e r2.0) in
      let (o3, q3) =
        and_then_ok r3 (λ t. select_channel e t (number n) channel_both) (rw (q1, q2) at o) in
      let (h3, w3) = stored-Holds r2.0 c2 windowcount (get_window_size e r2.0) h2 o3 in
      let c3 = record c2 { window_count = get_window_size e r2.0 } in
      let same1 = get_window_size-same s r1.0 w1 in
      let same2 = get_window_size-same s r2.0 (w2 ∙ w1) in
      let d = opened c (get_window_size e s) in
      let equal : c3 ≡ d = rw (same2, same1) refl in
      let found = find-last r3.0 n c3 h3.attributes b fresh r m in
      let all : activate e s n ≡ select_channel e r3.0 (number n) channel_both = q1 ∙ q2 ∙ q3 in
      let last : (select_channel e r3.0 (number n) channel_both).1 ≡ ok = rw all at o in
      elim (select_channel-Selects e r3.0 (number n) channel_both) [
        | inr (t, inl st) ↦ cc
        | inr (t, inr (inl st)) ↦ cc
        | inr (t, inr (inr st)) ↦ cc
        | inl (k, c', f, a, t, st) ↦
            let which : c' ≡ d = cc in
            let table : r3.0.attributes ≡ l ++ channel d ∷ [] =
              rw h3.attributes (ap (λ x. l ++ channel x ∷ []) equal) in
            rw (all, t, which) (table, refl, refl, refl, w3 ∙ w2 ∙ w1)
      ]
