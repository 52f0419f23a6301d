-- ===== src/Ssh/Channel/Manage/Create.antt =====
-- createChannel: the search for an unused channel number ends in time and finds the least one.
use bosh_dotnet.Prelude.{
  ℕ, zero, suc, ◌+◌, ◌-◌, ◌*◌, ◌≤◌, ◌<◌, ◌≡◌, refl, ◌≢◌, inl, inr, List, [], ◌∷◌, true, none, some,
  length, get_elem?, arith, Bool-cases, Option-cases, if◌then◌else◌, leb, ◌==◌, ==_iff,
}
use bosh_dotnet.Ssh.Environment.{Environment, IsDocumented}
use bosh_dotnet.Ssh.Session.{
  Channel, Attribute, channel, other, channels, Session, extra_packet_size,
}
use bosh_dotnet.Ssh.Channel.Find.{number, has_channel_no, find_channel_attr}
use bosh_dotnet.Ssh.Channel.Find.Found.{find_channel_attr-found, find_channel_by_channel_no_lem}
use bosh_dotnet.Ssh.Channel.Manage.{skip_used, create_channel, add_channel, session_type}
use bosh_dotnet.Ssh.Channel.Manage.Invariant.{IsWellFormed}
use bosh_dotnet.Ssh.Channel.Manage.Add.{add_channel-IsWellFormed}

-- How many channel numbers of the table, for reading and for writing, are not below `n`.
slots : ℕ → List Attribute → ℕ
slots n [] = 0
slots n (other x ∷ l) = slots n l
slots n (channel c ∷ l) =
    (if leb n c.read_channel_no then 1 else 0)
    + (if leb n c.write_channel_no then 1 else 0)
    + slots n l

slots-le : (n : ℕ) (l : List Attribute) → slots n l ≤ 2 * length (channels l)
unfolding slots
slots-le n [] = omega arith
slots-le n (other x ∷ l) = slots-le n l
slots-le n (channel c ∷ l) = ground (arith, slots-le n l)

slots-suc-le : (n : ℕ) (l : List Attribute) → slots (n + 1) l ≤ slots n l
unfolding slots
slots-suc-le n [] = omega arith
slots-suc-le n (other x ∷ l) = slots-suc-le n l
slots-suc-le n (channel c ∷ l) = ground (arith, slots-suc-le n l)

-- Passing a number in use leaves fewer.
slots-suc-lt :
    (n : ℕ) (l : List Attribute) (k : ℕ) (c : Channel)
    → get_elem? l k ≡ some (channel c)
    → has_channel_no (number n) c ≡ true
    → slots (n + 1) l < slots n l
unfolding slots
slots-suc-lt n [] k c h t = cc
slots-suc-lt n (other x ∷ l) zero c h t = cc
slots-suc-lt n (other x ∷ l) (suc k) c h t = slots-suc-lt n l k c h t
slots-suc-lt n (channel d ∷ l) zero c h t = ground (arith, slots-suc-le n l)
slots-suc-lt n (channel d ∷ l) (suc k) c h t = ground (arith, slots-suc-lt n l k c h t)

-- The least number from `first` on that no channel is found by.
pub record IsLeastUnused (e : Environment) (s : Session) (first n : ℕ) : Type 0 where
  pub unused : find_channel_attr e s (number n) ≡ none
  pub from_first : first ≤ n
  pub used_before : (j : ℕ) → first ≤ j → j < n → find_channel_attr e s (number j) ≢ none

module _ (e : Environment) (s : Session) where
  skip_used-IsLeastUnused :
      (f n : ℕ)
      → slots n s.attributes < f
      → ((skip_used e s f n).1 ≡ true) × IsLeastUnused e s n (skip_used e s f n).0
  unfolding skip_used
  skip_used-IsLeastUnused zero n h = absurd (omega arith)
  skip_used-IsLeastUnused (suc f) n h = elim (Option-cases (find_channel_attr e s (number n))) [
    | inl q ↦
        rw (find_channel_by_channel_no_lem e s (number n), q)
          (
            refl,
            record {
              unused = q;
              from_first = omega arith;
              used_before = λ j a b. absurd (omega arith);
            },
          )
    | inr ((k, c), q) ↦
        let (at, has) = find_channel_attr-found e s (number n) k c q in
        let (t, least) =
          skip_used-IsLeastUnused f (n + 1)
            (omega (arith, slots-suc-lt n s.attributes k c at has)) in
        rw (find_channel_by_channel_no_lem e s (number n), q)
          (
            t,
            record {
              unused = least.unused;
              from_first = omega (arith, least.from_first);
              used_before = λ j a b. elim (Bool-cases (j == n)) [
                | inl r ↦ rw ((==_iff j n).0 r, q) (λ x. cc)
                | inr r ↦ least.used_before j (ground arith) b
              ];
            },
          )
  ]

-- Where the rounds allowed exceed the numbers in use, at most two for each channel, creating a
-- channel is adding one under the least unused number from the counter on, and the counter moves
-- past that number.
pub create_channel-IsLeastUnused :
    (e : Environment) (s : Session)
    → 2 * length (channels s.attributes) < e.failsafe_iterations_med
    → (n : ℕ) × IsLeastUnused e s s.next_channel_no n
      × (create_channel e s
          ≡ add_channel e
              (record s { next_channel_no = n + 1 })
              n
              (s.send_buf_size - extra_packet_size)
              session_type
              [])
unfolding create_channel
create_channel-IsLeastUnused e s h =
    let (t, least) =
      skip_used-IsLeastUnused e s e.failsafe_iterations_med s.next_channel_no
        (omega (arith, slots-le s.next_channel_no s.attributes)) in
    ((skip_used e s e.failsafe_iterations_med s.next_channel_no).0, least, rw t)

advanced-IsWellFormed :
    (s : Session) (n : ℕ) → IsWellFormed s → IsWellFormed (record s { next_channel_no = n })
advanced-IsWellFormed s n w = record {
  issued = w.issued;
  distinct = w.distinct;
  read_current = w.read_current;
  write_current = w.write_current;
  counted = w.counted;
}

-- Creating a channel keeps the table well formed, whatever the call returns.
pub create_channel-IsWellFormed :
    (e : Environment) (s : Session)
    → IsDocumented e
    → IsWellFormed s
    → IsWellFormed (create_channel e s).0
unfolding create_channel
create_channel-IsWellFormed e s doc w =
    let n = (skip_used e s e.failsafe_iterations_med s.next_channel_no).0 in
    elim (Bool-cases (skip_used e s e.failsafe_iterations_med s.next_channel_no).1) [
      | inl t ↦ rw t (
          add_channel-IsWellFormed e (record s { next_channel_no = n + 1 }) n
            (s.send_buf_size - extra_packet_size) session_type [] doc
            (advanced-IsWellFormed s (n + 1) w))
      | inr t ↦ rw t (advanced-IsWellFormed s n w)
    ]
