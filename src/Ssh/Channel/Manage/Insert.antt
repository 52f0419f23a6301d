-- ===== src/Ssh/Channel/Manage/Insert.antt =====
-- The insertion that addChannel ends with: the copies, the new item, its selection.
use bosh_dotnet.Prelude.{
  ℕ, ◌+◌, ◌≤◌, ◌<◌, ◌≡◌, refl, ◌≢◌, ◌⊎◌, inl, inr, List, [], ◌∷◌, ◌++◌, false, some, length,
  length-append, arith, Bool-cases, leb, le→leb,
}
use bosh_dotnet.Prelude.Items.{All, All-append, Has, Has-append, Has-last, Distinct-append}
use bosh_dotnet.Ssh.Environment.{Environment, IsDocumented}
use bosh_dotnet.Ssh.Status.{Status, ok, is_error, channel_none}
use bosh_dotnet.Ssh.Session.{
  Channel, Attribute, channel, ids, channels, Session, unused_channel_id, long_max, max_text_size,
  ssh_max_channels,
}
use bosh_dotnet.Ssh.Session.Ids.{ids-append, channels-append}
use bosh_dotnet.Ssh.Channel.Find.{number, has_channel_no, find_channel_by_channel_no}
use bosh_dotnet.Ssh.Channel.Find.Entries.{find_entry-append}
use bosh_dotnet.Ssh.Channel.Manage.{
  insert_channel, fill_channel, copy_arg, new_channel, first_index, select_channel, set_current,
}
use bosh_dotnet.Ssh.Channel.Manage.Invariant.{
  IsWellFormed, IsCurrent, Issued, Issued-grows, not-Has-index,
}

-- Only the next ID changes, and not downwards.
pub index-IsWellFormed :
    (s : Session) (index : ℕ)
    → s.channel_index ≤ index
    → IsWellFormed s
    → IsWellFormed (record s { channel_index = index })
index-IsWellFormed s index h w = record {
  issued = Issued-grows (ids s.attributes) s.channel_index index h w.issued;
  distinct = w.distinct;
  read_current = w.read_current;
  write_current = w.write_current;
  counted = w.counted;
}

pub first_index-IsWellFormed : (s : Session) → IsWellFormed s → IsWellFormed (first_index s)
first_index-IsWellFormed s w = elim (Bool-cases (leb s.channel_index unused_channel_id)) [
  | inl t ↦ rw t (index-IsWellFormed s (unused_channel_id + 1) (ground arith) w)
  | inr t ↦ rw t w
]

pub first_index-pos : (s : Session) → 0 < (first_index s).channel_index
first_index-pos s = ground arith

append-IsWellFormed :
    (s : Session) (c : Channel)
    → IsWellFormed s
    → 0 < s.channel_index
    → c.channel_id ≡ s.channel_index
    → length (channels s.attributes) ≤ ssh_max_channels
    → IsWellFormed (record s {
      attributes = s.attributes ++ channel c ∷ [];
      channel_index = s.channel_index + 1;
    })
append-IsWellFormed s c w p i n =
    let table : ids (s.attributes ++ channel c ∷ []) ≡ ids s.attributes ++ s.channel_index ∷ [] =
      rw (ids-append s.attributes c, i) in
    let grown =
      Issued-grows (ids s.attributes) s.channel_index (s.channel_index + 1) (omega arith)
        w.issued in
    record {
      issued = rw table (
          All-append (Issued (s.channel_index + 1)) (ids s.attributes) s.channel_index grown
            (p, omega arith));
      distinct = rw table (
          Distinct-append (ids s.attributes) s.channel_index w.distinct
            (not-Has-index (ids s.attributes) s.channel_index w.issued));
      read_current = rw table (current s.curr_read_channel w.read_current);
      write_current = rw table (current s.curr_write_channel w.write_current);
      counted =
          rw (channels-append s.attributes c)
            (omega (arith, length-append (channels s.attributes) (c ∷ [])));
    }
  where
    current :
        (id : ℕ)
        → IsCurrent id (ids s.attributes)
        → IsCurrent id (ids s.attributes ++ s.channel_index ∷ [])
    current id (inl z) = inl z
    current id (inr m) = inr (Has-append id (ids s.attributes) s.channel_index m)

module _ (e : Environment) where
  -- The copies fill the texts and nothing else.
  fill_channel_fields :
      (c : Channel) (type arg1 : List ℕ)
      → ((fill_channel e c type arg1).0.channel_id ≡ c.channel_id)
        × ((fill_channel e c type arg1).0.read_channel_no ≡ c.read_channel_no)
        × ((fill_channel e c type arg1).0.write_channel_no ≡ c.write_channel_no)
        × ((fill_channel e c type arg1).0.max_packet_size ≡ c.max_packet_size)
        × ((fill_channel e c type arg1).0.is_active ≡ c.is_active)
        × ((fill_channel e c type arg1).0.is_write_closed ≡ c.is_write_closed)
  unfolding fill_channel copy_arg
  fill_channel_fields c type [] = ground arith
  fill_channel_fields c type (x ∷ arg1) = ground arith

  -- Copies that succeed leave the texts given.
  fill_channel_texts :
      (c : Channel) (type arg1 : List ℕ)
      → IsDocumented e
      → c.arg1 ≡ []
      → (fill_channel e c type arg1).1 ≡ ok
      → ((fill_channel e c type arg1).0.type ≡ type) × ((fill_channel e c type arg1).0.arg1 ≡ arg1)
  unfolding fill_channel copy_arg
  fill_channel_texts c type [] doc z h = ground (arith, doc.copies 64 type)
  fill_channel_texts c type (x ∷ arg1) doc z h =
      ground (arith, doc.copies 64 type, doc.copies 64 (x ∷ arg1))

fill_channel_ok :
    (e : Environment) (c : Channel) (type : List ℕ)
    → (e.attribute_copy_params (some max_text_size) type).0 ≡ ok
    → is_error (fill_channel e c type []).1 ≡ false
unfolding fill_channel copy_arg
fill_channel_ok e c type h = rw h

-- The channel that `addChannel` makes from its arguments.
pub record IsNewChannel (c : Channel) (id n size : ℕ) (type arg1 : List ℕ) : Type 0 where
  pub channel_id : c.channel_id ≡ id
  pub read_channel_no : c.read_channel_no ≡ n
  pub write_channel_no : c.write_channel_no ≡ n
  pub max_packet_size : c.max_packet_size ≡ size
  pub inactive : c.is_active ≡ false
  pub open_for_write : c.is_write_closed ≡ false
  pub type_text : c.type ≡ type
  pub arg1_text : c.arg1 ≡ arg1

-- The session with that channel at the end of the table, selected for both directions.
abbrev pub with_channel : Session → Channel → Session
with_channel s c = record s {
  attributes = s.attributes ++ channel c ∷ [];
  channel_index = s.channel_index + 1;
  curr_read_channel = c.channel_id;
  curr_write_channel = c.channel_id;
  max_packet_size = c.max_packet_size;
}

pub with_channel-IsWellFormed :
    (s : Session) (c : Channel)
    → IsWellFormed s
    → 0 < s.channel_index
    → c.channel_id ≡ s.channel_index
    → length (channels s.attributes) ≤ ssh_max_channels
    → IsWellFormed (with_channel s c)
with_channel-IsWellFormed s c w p i n =
    let grown = append-IsWellFormed s c w p i n in
    let last : Has c.channel_id (ids (s.attributes ++ channel c ∷ [])) =
      rw (ids-append s.attributes c) (Has-last (ids s.attributes) c.channel_id) in
    record {
      issued = grown.issued;
      distinct = grown.distinct;
      read_current = inr last;
      write_current = inr last;
      counted = grown.counted;
    }

module _ (e : Environment) (doc : IsDocumented e) where
  select_new :
      (s : Session) (n : ℕ) (c : Channel)
      → All (λ d. has_channel_no (number n) d ≡ false) (channels s.attributes)
      → c.read_channel_no ≡ n
      → n ≤ long_max
      → length s.attributes < e.failsafe_iterations_max
      → select_channel e
          (record s {
            attributes = s.attributes ++ channel c ∷ [];
            channel_index = s.channel_index + 1;
          })
          (number n)
          channel_none
        ≡ (with_channel s c, ok)
  unfolding select_channel find_channel_by_channel_no set_current
  select_new s n c fresh r b l =
      rw
        (
          le→leb n long_max b,
          find_entry-append (has_channel_no (number n)) e.failsafe_iterations_max 0 s.attributes c
              fresh (ground arith) l,
        )
        (ground arith)

  -- The ways in which the insertion ends.
  abbrev pub Inserts : Session → ℕ → ℕ → List ℕ → List ℕ → Session × Status → Type 0
  Inserts s n size type arg1 (t, st) =
      ((t ≡ record s { channel_index = s.channel_index + 1 }) × (st ≢ ok))
      ⊎ ((c : Channel) × IsNewChannel c s.channel_index n size type arg1
          × (t ≡ with_channel s c)
          × (st ≡ ok))

  pub insert_channel-Inserts :
      (s : Session) (n size : ℕ) (type arg1 : List ℕ)
      → All (λ d. has_channel_no (number n) d ≡ false) (channels s.attributes)
      → n ≤ long_max
      → length s.attributes < e.failsafe_iterations_max
      → Inserts s n size type arg1 (insert_channel e s n size type arg1)
  unfolding insert_channel
  insert_channel-Inserts s n size type arg1 fresh b l =
      let blank = new_channel s.channel_index n size in
      let c = (fill_channel e blank type arg1).0 in
      let fields = fill_channel_fields e blank type arg1 in
      elim (Bool-cases (is_error (fill_channel e blank type arg1).1)) [
        | inl t ↦ rw t (inl (refl, λ q. ground arith))
        | inr t ↦
            let texts = fill_channel_texts e blank type arg1 doc refl (ground arith) in
            elim (Bool-cases (is_error (e.add_session_info_composite s.attributes c).0)) [
              | inl u ↦
                  let kept = doc.refuses s.attributes c (λ q. ground arith) in
                  rw (t, u, kept) (inl (refl, λ q. ground arith))
              | inr u ↦
                  let grown = doc.adds s.attributes c (ground arith) in
                  rw (t, u, grown, select_new s n c fresh fields.1 b l)
                    (inr (
                      c,
                      record {
                        channel_id = fields.0;
                        read_channel_no = fields.1;
                        write_channel_no = fields.2;
                        max_packet_size = fields.3;
                        inactive = fields.4;
                        open_for_write = fields.5;
                        type_text = texts.0;
                        arg1_text = texts.1;
                      },
                      refl,
                      refl,
                    ))
            ]
      ]

  -- Copies and list both willing, the channel is added.
  pub insert_channel_ok :
      (s : Session) (n size : ℕ) (type : List ℕ)
      → (e.attribute_copy_params (some max_text_size) type).0 ≡ ok
      → ((l : List Attribute) (c : Channel) → (e.add_session_info_composite l c).0 ≡ ok)
      → All (λ d. has_channel_no (number n) d ≡ false) (channels s.attributes)
      → n ≤ long_max
      → length s.attributes < e.failsafe_iterations_max
      → (insert_channel e s n size type []).1 ≡ ok
  unfolding insert_channel
  insert_channel_ok s n size type copied added fresh b l =
      let blank = new_channel s.channel_index n size in
      let c = (fill_channel e blank type []).0 in
      let fields = fill_channel_fields e blank type [] in
      let t = fill_channel_ok e blank type copied in
      let u : is_error (e.add_session_info_composite s.attributes c).0 ≡ false =
        rw (added s.attributes c) in
      rw (t, u, doc.adds s.attributes c (added s.attributes c), select_new s n c fresh fields.1 b l)
