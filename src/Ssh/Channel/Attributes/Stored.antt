-- ===== src/Ssh/Channel/Attributes/Stored.antt =====
-- The setters keep the table well formed, and the getters read what they wrote.
use bosh_dotnet.Prelude.{
  ℕ, ◌≤◌, ◌<◌, ◌≡◌, refl, sym, ◌∙◌, inl, inr, ◌⊎◌, ◌&&◌, List, Option, none, some, length,
  length-set, get_elem?, get_elem?-set_self, Bool-cases, Option-cases, ltb, leb, arith,
}
use bosh_dotnet.Prelude.Items.{All-Has}
use bosh_dotnet.Ssh.Environment.{Environment}
use bosh_dotnet.Ssh.Status.{ok, channel_read, channel_write}
use bosh_dotnet.Ssh.Session.{
  Channel, channel, ids, Session, AttributeType, ssh_channel, ssh_channel_type, ssh_channel_arg1,
  ssh_channel_arg2, max_text_size,
}
use bosh_dotnet.Ssh.Session.Ids.{Has-ids_at}
use bosh_dotnet.Ssh.Channel.Find.{get_current_channel_info, find_channel_by_id, number}
use bosh_dotnet.Ssh.Channel.Find.Found.{get_current_channel_info_at, get_current_channel_info-found}
use bosh_dotnet.Ssh.Channel.Manage.{store}
use bosh_dotnet.Ssh.Channel.Manage.Invariant.{IsWellFormed, Issued, set-IsWellFormed}
use bosh_dotnet.Ssh.Channel.Manage.Select.{select_channel-IsWellFormed}
use bosh_dotnet.Ssh.Channel.Attributes.{
  SshAttribute, active, windowcount, windowsize, ext_stored, ext_fits, set_ext,
  set_channel_attribute, set_channel_attribute_s, set_channel_ext_attribute,
  get_channel_ext_attribute, set_text, set_id, select_id,
}

pub ext_stored-id :
    (c : Channel) (attribute : SshAttribute) (value : ℕ)
    → c.channel_id ≡ (ext_stored c attribute value).channel_id
unfolding ext_stored
ext_stored-id c active value = refl
ext_stored-id c _ value = refl

-- A write through the pointer to an entry that keeps its ID.
store-IsWellFormed :
    (s : Session) (k : ℕ) (c d : Channel)
    → IsWellFormed s
    → get_elem? s.attributes k ≡ some (channel c)
    → c.channel_id ≡ d.channel_id
    → IsWellFormed (store s k d)
store-IsWellFormed s k c d w h i =
    set-IsWellFormed s (store s k d) k c d w h i refl refl w.read_current w.write_current

set_text-IsWellFormed :
    (e : Environment) (s : Session) (attribute : AttributeType) (text : List ℕ)
    (o : Option (ℕ × Channel))
    → IsWellFormed s
    → get_current_channel_info e s channel_read ≡ o
    → IsWellFormed (set_text e s attribute text o).0
unfolding set_text
set_text-IsWellFormed e s attribute text none w h = w
set_text-IsWellFormed e s ssh_channel_type text (some (k, c)) w h =
    store-IsWellFormed s k c _ w (get_current_channel_info-found e s channel_read k c h).0 refl
set_text-IsWellFormed e s ssh_channel_arg1 text (some (k, c)) w h =
    store-IsWellFormed s k c _ w (get_current_channel_info-found e s channel_read k c h).0 refl
set_text-IsWellFormed e s ssh_channel_arg2 text (some (k, c)) w h =
    store-IsWellFormed s k c _ w (get_current_channel_info-found e s channel_read k c h).0 refl
set_text-IsWellFormed e s _ text (some (k, c)) w h = w

set_ext-IsWellFormed :
    (e : Environment) (s : Session) (attribute : SshAttribute) (value : ℕ)
    (o : Option (ℕ × Channel))
    → IsWellFormed s
    → get_current_channel_info e s channel_read ≡ o
    → IsWellFormed (set_ext e s attribute value o).0
unfolding set_ext
set_ext-IsWellFormed e s attribute value none w h = w
set_ext-IsWellFormed e s attribute value (some (k, c)) w h =
    store-IsWellFormed s k c (ext_stored c attribute value) w
      (get_current_channel_info-found e s channel_read k c h).0 (ext_stored-id c attribute value)

select_id-IsWellFormed :
    (e : Environment) (s : Session) (o : Option (ℕ × Channel))
    → IsWellFormed s
    → IsWellFormed (select_id e s o).0
unfolding select_id
select_id-IsWellFormed e s none w = w
select_id-IsWellFormed e s (some (k, c)) w =
    select_channel-IsWellFormed e s (number c.write_channel_no) channel_write w

set_id-IsWellFormed :
    (e : Environment) (s : Session) (attribute : AttributeType) (value : ℕ)
    → IsWellFormed s
    → IsWellFormed (set_id e s attribute value).0
unfolding set_id
set_id-IsWellFormed e s ssh_channel value w =
    select_id-IsWellFormed e s (find_channel_by_id e s value) w
set_id-IsWellFormed e s _ value w = w

module _ (e : Environment) (s : Session) where
  -- The three setters keep the table well formed, whatever they return.
  pub setters-IsWellFormed :
      (attribute : AttributeType) (ext : SshAttribute) (value : ℕ) (text : List ℕ)
      → IsWellFormed s
      → IsWellFormed (set_channel_attribute e s attribute value).0
        × IsWellFormed (set_channel_attribute_s e s attribute text).0
        × IsWellFormed (set_channel_ext_attribute e s ext value).0
  unfolding set_channel_attribute set_channel_attribute_s set_channel_ext_attribute
  setters-IsWellFormed attribute ext value text w = (
    elim (Bool-cases (ltb 0 value && ltb value e.max_intlength_short)) [
      | inl t ↦ rw t (set_id-IsWellFormed e s attribute value w)
      | inr t ↦ rw t w
    ],
    elim (Bool-cases (ltb 0 (length text) && leb (length text) max_text_size)) [
      | inl t ↦ rw t (
          set_text-IsWellFormed e s attribute text (get_current_channel_info e s channel_read) w
            refl)
      | inr t ↦ rw t w
    ],
    elim (Bool-cases (ext_fits ext value)) [
      | inl t ↦
          rw t
            (set_ext-IsWellFormed e s ext value (get_current_channel_info e s channel_read) w refl)
      | inr t ↦ rw t w
    ],
  )

  -- After a write the current channel is the written one, at its old place.
  pub get_current_channel_info-store :
      (k : ℕ) (c d : Channel)
      → IsWellFormed s
      → s.channel_index ≤ e.max_intlength_short
      → length s.attributes < e.failsafe_iterations_max
      → get_current_channel_info e s channel_read ≡ some (k, c)
      → c.channel_id ≡ d.channel_id
      → get_current_channel_info e (store s k d) channel_read ≡ some (k, d)
  get_current_channel_info-store k c d w short b h i =
      let (at, id) = get_current_channel_info-found e s channel_read k c h in
      let issued : Issued s.channel_index c.channel_id =
        All-Has (Issued s.channel_index) c.channel_id (ids s.attributes) w.issued
          (Has-ids_at c s.attributes k at) in
      get_current_channel_info_at e (store s k d) channel_read k d (λ q. cc) (sym id ∙ i)
        (get_elem?-set_self s.attributes k (channel c) (channel d) at)
        (store-IsWellFormed s k c d w at i).distinct (omega arith) (omega arith)
        (omega (arith, length-set s.attributes k (channel d)))

  -- A write of an internal attribute that succeeds is a write to the current read channel.
  pub set_channel_ext_attribute_ok :
      (attribute : SshAttribute) (value : ℕ)
      → (set_channel_ext_attribute e s attribute value).1 ≡ ok
      → (k : ℕ) × (c : Channel) × (get_current_channel_info e s channel_read ≡ some (k, c))
        × ((set_channel_ext_attribute e s attribute value).0
            ≡ store s k (ext_stored c attribute value))
  unfolding set_channel_ext_attribute
  set_channel_ext_attribute_ok attribute value h = elim (Bool-cases (ext_fits attribute value)) [
    | inr t ↦ cc (rw t at h)
    | inl t ↦ elim (Option-cases (get_current_channel_info e s channel_read)) [
      | inl q ↦ cc (rw (t, q) at h)
      | inr ((k, c), q) ↦ (k, c, q, rw (t, q))
    ]
  ]

  -- In a well-formed session whose next ID is at most MAX_INTLENGTH_SHORT and whose attribute list is
  -- shorter than FAILSAFE_ITERATIONS_MAX: after a write of the window count or size that succeeds,
  -- the getter returns what was stored, and the other of the two reads as it did before.
  pub get_channel_ext_attribute-set_channel_ext_attribute :
      (attribute other : SshAttribute) (value : ℕ)
      → IsWellFormed s
      → s.channel_index ≤ e.max_intlength_short
      → length s.attributes < e.failsafe_iterations_max
      → ((attribute ≡ windowcount) × (other ≡ windowsize))
        ⊎ ((attribute ≡ windowsize) × (other ≡ windowcount))
      → (set_channel_ext_attribute e s attribute value).1 ≡ ok
      → (get_channel_ext_attribute e (set_channel_ext_attribute e s attribute value).0 attribute
          ≡ (ok, value))
        × (get_channel_ext_attribute e (set_channel_ext_attribute e s attribute value).0 other
            ≡ get_channel_ext_attribute e s other)
  unfolding get_channel_ext_attribute ext_stored
  get_channel_ext_attribute-set_channel_ext_attribute attribute other value w short b (inl (a, o))
        h =
      let (k, c, q, t) = set_channel_ext_attribute_ok attribute value h in
      rw (t, a, o)
        (rw
          (get_current_channel_info-store k c (ext_stored c windowcount value) w short b q refl, q)
          (refl, refl))
  get_channel_ext_attribute-set_channel_ext_attribute attribute other value w short b (inr (a, o))
        h =
      let (k, c, q, t) = set_channel_ext_attribute_ok attribute value h in
      rw (t, a, o)
        (rw (get_current_channel_info-store k c (ext_stored c windowsize value) w short b q refl, q)
          (refl, refl))
