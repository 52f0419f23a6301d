-- ===== src/Ssh/Channel/Find/Found.antt =====
-- The finders of the channel layer in terms of the attribute list: what a found channel is, and
-- when a channel is found by its ID.
use bosh_dotnet.Prelude.{
  ℕ, zero, suc, ◌+◌, ◌<◌, ◌≡◌, refl, ◌≢◌, inl, inr, true, false, ◌&&◌, List, [], ◌∷◌, none, some,
  length, get_elem?, Bool-cases, arith, ltb, lt→ltb, ◌==◌, ==_iff,
}
use bosh_dotnet.Prelude.Items.{All, Distinct}
use bosh_dotnet.Ssh.Environment.{Environment}
use bosh_dotnet.Ssh.Session.{
  Channel, Attribute, channel, other, channels, ids, Session, unused_channel_id,
}
use bosh_dotnet.Ssh.Session.Ids.{Has-ids_at}
use bosh_dotnet.Ssh.Status.{ChannelType, channel_none}
use bosh_dotnet.Ssh.Channel.Find.{
  current_id, number_of, get_current_channel_no, get_current_channel_info, ChannelRef, in_range,
  has_channel_no, has_channel_id, find_entry, find_channel_attr, find_channel_by_channel_no,
  find_channel_by_id,
}
use bosh_dotnet.Ssh.Channel.Find.Entries.{find_entry-StandsAt, find_entry-none}

-- With distinct IDs the search by ID finds the entry itself.
pub find_entry-has_channel_id :
    (f base : ℕ) (l : List Attribute) (k : ℕ) (c : Channel)
    → get_elem? l k ≡ some (channel c)
    → Distinct (ids l)
    → length l < f
    → find_entry (has_channel_id c.channel_id) f base l ≡ some (base + k, c)
unfolding find_entry
find_entry-has_channel_id f base [] k c h d b = cc
find_entry-has_channel_id zero base (x ∷ l) k c h d b = absurd (omega arith)
find_entry-has_channel_id (suc f) base (other n ∷ l) zero c h d b = cc
find_entry-has_channel_id (suc f) base (other n ∷ l) (suc k) c h d b =
    ground (arith, find_entry-has_channel_id f (suc base) l k c h d)
find_entry-has_channel_id (suc f) base (channel a ∷ l) zero c h d b = ground arith
find_entry-has_channel_id (suc f) base (channel a ∷ l) (suc k) c h d b =
    elim (Bool-cases (has_channel_id c.channel_id a)) [
      | inl t ↦ absurd (d.0 (rw ((==_iff _ _).0 t) (Has-ids_at c l k h)))
      | inr t ↦ rw t (ground (arith, find_entry-has_channel_id f (suc base) l k c h d.1))
    ]

module _ (e : Environment) (s : Session) where
  -- What is found by number stands in the list, and has the number.
  pub find_channel_attr-found :
      (ref : ChannelRef) (position : ℕ) (c : Channel)
      → find_channel_attr e s ref ≡ some (position, c)
      → (get_elem? s.attributes position ≡ some (channel c)) × (has_channel_no ref c ≡ true)
  unfolding find_channel_attr
  find_channel_attr-found ref q c h = elim (Bool-cases (in_range ref)) [
    | inr t ↦ cc (rw t at h)
    | inl t ↦
        let (k, p, g, u) =
          find_entry-StandsAt (has_channel_no ref) e.failsafe_iterations_max 0 s.attributes q c
            (rw t at h) in
        let same : q ≡ k = omega arith in (rw same g, u)
  ]

  -- The double range test of the wrapper changes nothing.
  pub find_channel_by_channel_no_lem :
      (ref : ChannelRef) → find_channel_by_channel_no e s ref ≡ find_channel_attr e s ref
  unfolding find_channel_by_channel_no find_channel_attr
  find_channel_by_channel_no_lem ref = ground arith

  -- No channel has a number that is not found.
  pub find_channel_attr-none :
      (ref : ChannelRef)
      → find_channel_attr e s ref ≡ none
      → in_range ref ≡ true
      → length s.attributes < e.failsafe_iterations_max
      → All (λ c. has_channel_no ref c ≡ false) (channels s.attributes)
  unfolding find_channel_attr
  find_channel_attr-none ref h r b =
      find_entry-none (has_channel_no ref) e.failsafe_iterations_max 0 s.attributes (rw r at h) b

  pub find_channel_by_id_at :
      (k : ℕ) (c : Channel)
      → get_elem? s.attributes k ≡ some (channel c)
      → Distinct (ids s.attributes)
      → 0 < c.channel_id
      → c.channel_id < e.max_intlength_short
      → length s.attributes < e.failsafe_iterations_max
      → find_channel_by_id e s c.channel_id ≡ some (k, c)
  unfolding find_channel_by_id
  find_channel_by_id_at k c h d p q b =
      let here : 0 + k ≡ k = omega arith in
      rw (lt→ltb _ _ p, lt→ltb _ _ q)
        (rw here at (find_entry-has_channel_id e.failsafe_iterations_max 0 s.attributes k c h d b))

  -- The current channel of a direction is the entry with the selected ID.
  pub get_current_channel_info_at :
      (ty : ChannelType) (k : ℕ) (c : Channel)
      → ty ≢ channel_none
      → current_id ty s ≡ c.channel_id
      → get_elem? s.attributes k ≡ some (channel c)
      → Distinct (ids s.attributes)
      → 0 < c.channel_id
      → c.channel_id < e.max_intlength_short
      → length s.attributes < e.failsafe_iterations_max
      → get_current_channel_info e s ty ≡ some (k, c)
  unfolding get_current_channel_info
  get_current_channel_info_at channel_none k c t i h d p q b = absurd (t refl)
  get_current_channel_info_at _ k c t i h d p q b =
      rw i (ground (arith, find_channel_by_id_at k c h d))

  pub get_current_channel_no_lem :
      (ty : ChannelType)
      → get_current_channel_no e s ty ≡ number_of ty (get_current_channel_info e s ty)
  unfolding get_current_channel_no
  get_current_channel_no_lem ty = refl

  pub find_channel_by_id-found :
      (n k : ℕ) (c : Channel)
      → find_channel_by_id e s n ≡ some (k, c)
      → (get_elem? s.attributes k ≡ some (channel c)) × (c.channel_id ≡ n)
  unfolding find_channel_by_id
  find_channel_by_id-found n k c h = elim (Bool-cases (ltb 0 n && ltb n e.max_intlength_short)) [
    | inr t ↦ cc (rw t at h)
    | inl t ↦
        let (j, p, g, u) =
          find_entry-StandsAt (has_channel_id n) e.failsafe_iterations_max 0 s.attributes k c
            (rw t at h) in
        let same : k ≡ j = omega arith in (rw same g, (==_iff _ _).0 u)
  ]

  -- The current channel stands in the table under the selected ID.
  pub get_current_channel_info-found :
      (ty : ChannelType) (k : ℕ) (c : Channel)
      → get_current_channel_info e s ty ≡ some (k, c)
      → (get_elem? s.attributes k ≡ some (channel c)) × (c.channel_id ≡ current_id ty s)
  unfolding get_current_channel_info
  get_current_channel_info-found channel_none k c h = cc
  get_current_channel_info-found ty k c h =
      elim (Bool-cases (current_id ty s == unused_channel_id)) [
        | inl t ↦ cc (rw t at h)
        | inr t ↦ find_channel_by_id-found (current_id ty s) k c (rw t at h)
      ]
