-- ===== src/Ssh/Channel/Manage/Add.antt =====
-- addChannel: the invariant on every branch, what a call that succeeds has done, and the limit.
use bosh_dotnet.Prelude.{
  ℕ, ◌+◌, ◌≤◌, ◌<◌, ◌≡◌, refl, ap, ◌≢◌, ◌⊎◌, inl, inr, List, [], ◌∷◌, true, false, none, some,
  length, length-append, get_elem?-append_last, arith, Bool-cases, Option-cases, ltb, ltb→lt,
  lt→ltb, le→leb,
}
use bosh_dotnet.Prelude.Items.{All, Has}
use bosh_dotnet.Ssh.Environment.{Environment, IsDocumented}
use bosh_dotnet.Ssh.Status.{Status, ok, ChannelType, channel_none, channel_read, channel_write}
use bosh_dotnet.Ssh.Session.{
  Channel, Attribute, channel, ids, channels, Session, long_max, max_text_size, ssh_max_channels,
}
use bosh_dotnet.Ssh.Session.Ids.{channels-append}
use bosh_dotnet.Ssh.Channel.Find.{
  number, has_channel_no, find_channel_attr, get_current_channel_no, current_id,
}
use bosh_dotnet.Ssh.Channel.Find.Found.{
  find_channel_attr-none, find_channel_by_channel_no_lem, get_current_channel_info_at,
  get_current_channel_no_lem,
}
use bosh_dotnet.Ssh.Channel.Manage.{add_channel, insert_channel, first_index, add_arguments_fit}
use bosh_dotnet.Ssh.Channel.Manage.Invariant.{IsWellFormed, not-Has-index}
use bosh_dotnet.Ssh.Channel.Manage.Insert.{
  IsNewChannel, with_channel, insert_channel-Inserts, insert_channel_ok, with_channel-IsWellFormed,
  index-IsWellFormed, first_index-IsWellFormed, first_index-pos,
}

-- No channel of the table has the number, for reading or writing.
abbrev pub IsFresh : Session → ℕ → Type 0
IsFresh s n = All (λ d. has_channel_no (number n) d ≡ false) (channels s.attributes)

module _ (e : Environment) where
  -- The ways in which the call ends: refused with the table as it was, or the channel added.
  abbrev pub Adds : Session → ℕ → ℕ → List ℕ → List ℕ → Session × Status → Type 0
  Adds s n size type arg1 (t, st) =
      (((t ≡ s)
          ⊎ (t ≡ first_index s)
          ⊎ (t ≡ record (first_index s) { channel_index = (first_index s).channel_index + 1 }))
        × (st ≢ ok))
      ⊎ ((c : Channel) × IsNewChannel c (first_index s).channel_index n size type arg1
          × (t ≡ with_channel (first_index s) c)
          × (st ≡ ok)
          × IsFresh s n
          × (length (channels s.attributes) ≤ ssh_max_channels)
          × (length s.attributes < e.failsafe_iterations_max))

  pub first_index_attributes : (s : Session) → (first_index s).attributes ≡ s.attributes
  first_index_attributes s = ground arith

  module _ (doc : IsDocumented e) (s : Session) (n size : ℕ) (type arg1 : List ℕ) where
    insert_first-Adds :
        IsFresh s n
        → n ≤ long_max
        → length (channels s.attributes) ≤ ssh_max_channels
        → length s.attributes < e.failsafe_iterations_max
        → Adds s n size type arg1 (insert_channel e (first_index s) n size type arg1)
    insert_first-Adds fresh b count l =
        let same = first_index_attributes s in
        elim (insert_channel-Inserts e doc (first_index s) n size type arg1 (rw same fresh) b
          (rw same l)) [
            | inl (t, st) ↦ inl (inr (inr t), st)
            | inr (c, made, t, st) ↦ inr (c, made, t, st, fresh, count, l)
          ]

    pub add_channel-Adds : Adds s n size type arg1 (add_channel e s n size type arg1)
    unfolding add_channel
    add_channel-Adds = elim (Bool-cases (add_arguments_fit e n size type arg1)) [
      | inr t ↦ rw t (inl (inl refl, λ q. ground arith))
      | inl t ↦ elim (Option-cases (find_channel_attr e s (number n))) [
        | inr (found, f) ↦
            rw (t, find_channel_by_channel_no_lem e s (number n), f)
              (inl (inl refl, λ q. ground arith))
        | inl f ↦
            rw (t, find_channel_by_channel_no_lem e s (number n), f)
              (elim (Bool-cases (ltb (length s.attributes) e.failsafe_iterations_max)) [
                | inr u ↦ rw u (inl (inr (inl refl), λ q. ground arith))
                | inl u ↦
                    elim (Bool-cases (ltb ssh_max_channels (length (channels s.attributes)))) [
                      | inl v ↦ rw (u, v) (inl (inr (inl refl), λ q. ground arith))
                      | inr v ↦
                          let b : n ≤ long_max = ground arith in
                          let l = ltb→lt (length s.attributes) e.failsafe_iterations_max u in
                          let fresh =
                            find_channel_attr-none e s (number n) f (le→leb n long_max b) l in
                          rw (u, v) (insert_first-Adds fresh b (ground arith) l)
                    ]
              ])
      ]
    ]

-- Adding a channel keeps the table well formed, whatever the call returns.
pub add_channel-IsWellFormed :
    (e : Environment) (s : Session) (n size : ℕ) (type arg1 : List ℕ)
    → IsDocumented e
    → IsWellFormed s
    → IsWellFormed (add_channel e s n size type arg1).0
add_channel-IsWellFormed e s n size type arg1 doc w =
    let first = first_index-IsWellFormed s w in
    elim (add_channel-Adds e doc s n size type arg1) [
      | inl (inl t, st) ↦ rw t w
      | inl (inr (inl t), st) ↦ rw t first
      | inl (inr (inr t), st) ↦ rw t (
          index-IsWellFormed (first_index s) ((first_index s).channel_index + 1) (omega arith)
            first)
      | inr (c, made, t, st, fresh, count, l) ↦
          let few : length (channels (first_index s).attributes) ≤ ssh_max_channels =
            rw (first_index_attributes e s) count in
          rw t (
            with_channel-IsWellFormed (first_index s) c first (first_index-pos s) made.channel_id
              few)
    ]

-- A call that succeeds puts one new channel behind the others and selects it: it carries the
-- number, the packet size and the texts given, an ID that no channel of a well-formed table has,
-- and no channel had its number before.
pub add_channel_ok :
    (e : Environment) (s : Session) (n size : ℕ) (type arg1 : List ℕ)
    → IsDocumented e
    → IsWellFormed s
    → (add_channel e s n size type arg1).1 ≡ ok
    → (c : Channel) × IsNewChannel c (first_index s).channel_index n size type arg1
      × ((add_channel e s n size type arg1).0 ≡ with_channel (first_index s) c)
      × IsFresh s n
      × (Has c.channel_id (ids s.attributes) → ⊥)
add_channel_ok e s n size type arg1 doc w h = elim (add_channel-Adds e doc s n size type arg1) [
  | inl (t, st) ↦ absurd (st h)
  | inr (c, made, t, st, fresh, count, l) ↦
      let first = first_index-IsWellFormed s w in
      let absent =
        not-Has-index (ids (first_index s).attributes) (first_index s).channel_index first.issued in
      (c, made, t, fresh, rw (← first_index_attributes e s, made.channel_id) absent)
]

-- A call that fails leaves the table and both selections as they were.
pub add_channel_error_unchanged :
    (e : Environment) (s : Session) (n size : ℕ) (type arg1 : List ℕ)
    → IsDocumented e
    → (add_channel e s n size type arg1).1 ≢ ok
    → let t = (add_channel e s n size type arg1).0 in
      (t.attributes ≡ s.attributes)
      × (t.curr_read_channel ≡ s.curr_read_channel)
      × (t.curr_write_channel ≡ s.curr_write_channel)
      × (t.max_packet_size ≡ s.max_packet_size)
add_channel_error_unchanged e s n size type arg1 doc h =
    elim (add_channel-Adds e doc s n size type arg1) [
      | inl (t, st) ↦ ground arith
      | inr (c, made, t, st, fresh, count, l) ↦ absurd (h st)
    ]

-- In a well-formed session whose next ID is below MAX_INTLENGTH_SHORT - 1 and whose attribute list is
-- shorter than FAILSAFE_ITERATIONS_MAX - 1: right after a call of addChannel that succeeds, the
-- current channel of both directions has the number given.
pub get_current_channel_no-add_channel :
    (e : Environment) (s : Session) (n size : ℕ) (type arg1 : List ℕ)
    → IsDocumented e
    → IsWellFormed s
    → s.channel_index + 1 < e.max_intlength_short
    → length s.attributes + 1 < e.failsafe_iterations_max
    → (add_channel e s n size type arg1).1 ≡ ok
    → (get_current_channel_no e (add_channel e s n size type arg1).0 channel_read ≡ some n)
      × (get_current_channel_no e (add_channel e s n size type arg1).0 channel_write ≡ some n)
get_current_channel_no-add_channel e s n size type arg1 doc w short l h =
    let (c, made, t, fresh, absent) = add_channel_ok e s n size type arg1 doc w h in
    let first = first_index s in
    let selected = with_channel first c in
    let same : length first.attributes ≡ length s.attributes =
      ap length (first_index_attributes e s) in
    let at = get_elem?-append_last first.attributes (channel c) in
    let kept = (rw t at (add_channel-IsWellFormed e s n size type arg1 doc w)).distinct in
    let pos = first_index-pos s in
    let current =
      λ (ty : ChannelType) (some_side : ty ≢ channel_none)
          (id : current_id ty selected ≡ c.channel_id).
        get_current_channel_info_at e selected ty (length first.attributes) c some_side id at kept
          (omega (arith, made.channel_id)) (ground (arith, made.channel_id))
          (omega (arith, length-append first.attributes (channel c ∷ []))) in
    rw (t, get_current_channel_no_lem, get_current_channel_no_lem)
      (rw (current channel_read (λ q. cc) refl, current channel_write (λ q. cc) refl)
        (ap some made.read_channel_no, ap some made.write_channel_no))

length-channels-add_channel :
    (e : Environment) (s : Session) (n size : ℕ) (type arg1 : List ℕ)
    → IsDocumented e
    → (add_channel e s n size type arg1).1 ≡ ok
    → length (channels (add_channel e s n size type arg1).0.attributes)
      ≡ length (channels s.attributes) + 1
length-channels-add_channel e s n size type arg1 doc h =
    elim (add_channel-Adds e doc s n size type arg1) [
      | inl (t, st) ↦ absurd (st h)
      | inr (c, made, t, st, fresh, count, l) ↦
          rw (t, first_index_attributes e s, channels-append)
            (omega (arith, length-append (channels s.attributes) (c ∷ [])))
    ]

-- The limit is one above SSH_MAX_CHANNELS: in a table of exactly SSH_MAX_CHANNELS channels a call
-- with fitting arguments and an unused number succeeds, wherever the copy of the type and the
-- list accept, and leaves SSH_MAX_CHANNELS + 1 channels.
pub add_channel_limit :
    (e : Environment) (s : Session) (n size : ℕ) (type : List ℕ)
    → IsDocumented e
    → (e.attribute_copy_params (some max_text_size) type).0 ≡ ok
    → ((l : List Attribute) (c : Channel) → (e.add_session_info_composite l c).0 ≡ ok)
    → add_arguments_fit e n size type [] ≡ true
    → find_channel_attr e s (number n) ≡ none
    → length s.attributes < e.failsafe_iterations_max
    → length (channels s.attributes) ≡ ssh_max_channels
    → ((add_channel e s n size type []).1 ≡ ok)
      × (length (channels (add_channel e s n size type []).0.attributes) ≡ ssh_max_channels + 1)
unfolding add_channel
add_channel_limit e s n size type doc copied added fits unused l full =
    let lt = lt→ltb (length s.attributes) e.failsafe_iterations_max l in
    let n_fits : n ≤ long_max = ground arith in
    let fresh = find_channel_attr-none e s (number n) unused (le→leb n long_max n_fits) l in
    let same = first_index_attributes e s in
    let inserted =
      insert_channel_ok e doc (first_index s) n size type copied added (rw same fresh) n_fits
        (rw same l) in
    let at : ltb ssh_max_channels (length (channels s.attributes)) ≡ false = ground arith in
    let done : (add_channel e s n size type []).1 ≡ ok =
      rw (fits, find_channel_by_channel_no_lem e s (number n), unused, lt, at) inserted in
    (done, omega (arith, length-channels-add_channel e s n size type [] doc done))
