-- ===== src/Ssh/Channel/Manage/Delete.antt =====
-- deleteChannel: its outcomes, the invariant, and when it reports the last channel.
use bosh_dotnet.Prelude.{
  ℕ, ◌≡◌, refl, ◌≢◌, ◌⊎◌, inl, inr, List, Bool, true, false, not, ◌&&◌, ◌||◌, Option, none, some,
  get_elem?, erase_idx, arith, Bool-cases, leb, ◌==◌, ==_iff,
}
use bosh_dotnet.Ssh.Environment.{Environment, IsDocumented}
use bosh_dotnet.Ssh.Status.{
  Status, ok_special, not_found, permission, internal, ChannelType, channel_none, channel_read,
  channel_write, channel_both,
}
use bosh_dotnet.Ssh.Session.{Channel, Attribute, channel, ids, Session, unused_channel_id, long_max}
use bosh_dotnet.Ssh.Session.Ids.{
  All-ids-erase_idx, Distinct-ids-erase_idx, length-channels-erase_idx-le, Has-ids-erase_idx,
}
use bosh_dotnet.Ssh.Channel.Find.{number, find_channel_attr, is_channel_active}
use bosh_dotnet.Ssh.Channel.Find.Found.{find_channel_attr-found}
use bosh_dotnet.Ssh.Channel.Manage.{
  delete_channel, delete_found, delete_side, write_closed, removed, unselect, done_if,
  is_channel_none,
}
use bosh_dotnet.Ssh.Channel.Manage.Invariant.{IsWellFormed, IsCurrent, Issued, set-IsWellFormed}

unselect-IsCurrent :
    (c : Channel) (l : List Attribute) (k current : ℕ)
    → get_elem? l k ≡ some (channel c)
    → IsCurrent current (ids l)
    → IsCurrent (unselect c.channel_id current) (ids (erase_idx l k))
unselect-IsCurrent c l k current h (inl z) = inl (ground arith)
unselect-IsCurrent c l k current h (inr m) = elim (Bool-cases (c.channel_id == current)) [
  | inl t ↦ rw t (inl refl)
  | inr t ↦ rw t (inr (Has-ids-erase_idx c current l k h (λ q. cc (t, (==_iff _ _).1 q)) m))
]

unselect-IsCurrent_self :
    (id current : ℕ) (table : List ℕ)
    → IsCurrent current table
    → IsCurrent (unselect id current) table
unselect-IsCurrent_self id current table h = elim (Bool-cases (id == current)) [
  | inl t ↦ rw t (inl refl)
  | inr t ↦ rw t h
]

write_closed-IsWellFormed :
    (s : Session) (k : ℕ) (c : Channel)
    → IsWellFormed s
    → get_elem? s.attributes k ≡ some (channel c)
    → IsWellFormed (write_closed s k c)
unfolding write_closed
write_closed-IsWellFormed s k c w h =
    set-IsWellFormed s _ k c (record c { is_write_closed = true }) w h refl refl refl w.read_current
      (unselect-IsCurrent_self c.channel_id s.curr_write_channel (ids s.attributes) w.write_current)

module _ (e : Environment) (doc : IsDocumented e) where
  removed-IsWellFormed :
      (s : Session) (k : ℕ) (c : Channel)
      → IsWellFormed s
      → get_elem? s.attributes k ≡ some (channel c)
      → IsWellFormed (removed e s k c)
  unfolding removed
  removed-IsWellFormed s k c w h = rw (doc.deletes s.attributes k) (record {
    issued = All-ids-erase_idx (Issued s.channel_index) s.attributes k w.issued;
    distinct = Distinct-ids-erase_idx s.attributes k w.distinct;
    read_current = unselect-IsCurrent c s.attributes k s.curr_read_channel h w.read_current;
    write_current = unselect-IsCurrent c s.attributes k s.curr_write_channel h w.write_current;
    counted = omega (arith, w.counted, length-channels-erase_idx-le s.attributes k);
  })

module _ (e : Environment) where
  -- The outcomes of a deletion: refused, half-closed, removed.
  abbrev pub Deletes : Session → ℕ → ChannelType → Bool → Session × Status → Type 0
  Deletes s n ty delete_last (t, st) =
      ((t ≡ s)
        × ((st ≡ internal)
            ⊎ (st ≡ permission)
            ⊎ ((find_channel_attr e s (number n) ≡ none) × ((st ≡ not_found) ⊎ (st ≡ ok_special)))))
      ⊎ ((k : ℕ) × (c : Channel) × (find_channel_attr e s (number n) ≡ some (k, c))
          × ((delete_last ≡ true) ⊎ (is_channel_active e s c.channel_id ≡ true))
          × (((ty ≡ channel_write)
                × (c.is_write_closed ≡ false)
                × (t ≡ write_closed s k c)
                × (st ≡ done_if (is_channel_active e t c.channel_id)))
              ⊎ ((ty ≢ channel_write)
                  × (t ≡ removed e s k c)
                  × (st ≡ done_if (is_channel_active e t unused_channel_id)))))

  delete_side-Deletes :
      (s : Session) (n : ℕ) (ty : ChannelType) (last : Bool) (k : ℕ) (c : Channel)
      → find_channel_attr e s (number n) ≡ some (k, c)
      → (last ≡ true) ⊎ (is_channel_active e s c.channel_id ≡ true)
      → Deletes s n ty last (delete_side e s ty k c)
  unfolding delete_side
  delete_side-Deletes s n channel_write last k c h a = elim (Bool-cases c.is_write_closed) [
    | inl t ↦ rw t (inl (refl, inl refl))
    | inr t ↦ rw t (inr (k, c, h, a, inl (refl, t, refl, refl)))
  ]
  delete_side-Deletes s n channel_none last k c h a = inr (k, c, h, a, inr (λ q. cc, refl, refl))
  delete_side-Deletes s n channel_read last k c h a = inr (k, c, h, a, inr (λ q. cc, refl, refl))
  delete_side-Deletes s n channel_both last k c h a = inr (k, c, h, a, inr (λ q. cc, refl, refl))

  delete_found-Deletes :
      (s : Session) (n : ℕ) (ty : ChannelType) (last : Bool) (o : Option (ℕ × Channel))
      → find_channel_attr e s (number n) ≡ o
      → Deletes s n ty last (delete_found e s ty last o)
  unfolding delete_found
  delete_found-Deletes s n ty last none h = inl (refl, inr (inr (h, ground arith)))
  delete_found-Deletes s n ty last (some (k, c)) h =
      elim (Bool-cases (not last && not (is_channel_active e s c.channel_id))) [
        | inl t ↦ rw t (inl (refl, inr (inl refl)))
        | inr t ↦ rw t (delete_side-Deletes s n ty last k c h (ground arith))
      ]

  pub delete_channel-Deletes :
      (s : Session) (n : ℕ) (ty : ChannelType) (last : Bool)
      → Deletes s n ty last (delete_channel e s n ty last)
  unfolding delete_channel
  delete_channel-Deletes s n ty last =
      elim (Bool-cases (not (leb n long_max) || is_channel_none ty)) [
        | inl t ↦ rw t (inl (refl, inl refl))
        | inr t ↦ rw t (delete_found-Deletes s n ty last (find_channel_attr e s (number n)) refl)
      ]

-- Deleting keeps the table well formed, whatever the call returns.
pub delete_channel-IsWellFormed :
    (e : Environment) (s : Session) (n : ℕ) (ty : ChannelType) (last : Bool)
    → IsDocumented e
    → IsWellFormed s
    → IsWellFormed (delete_channel e s n ty last).0
delete_channel-IsWellFormed e s n ty last doc w = elim (delete_channel-Deletes e s n ty last) [
  | inl (t, st) ↦ rw t w
  | inr (k, c, f, a, inl (y, o, t, st)) ↦
      rw t (write_closed-IsWellFormed s k c w (find_channel_attr-found e s (number n) k c f).0)
  | inr (k, c, f, a, inr (y, t, st)) ↦
      rw t (removed-IsWellFormed e doc s k c w (find_channel_attr-found e s (number n) k c f).0)
]
