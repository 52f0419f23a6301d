-- ===== src/Ssh/Message/Loop.antt =====
-- The two loops of closeChannel: when each ends in time, and what that means for the session.
use bosh_dotnet.Prelude.{
  ℕ, zero, suc, ◌+◌, ◌≤◌, ◌<◌, ◌≡◌, ◌≢◌, refl, ◌∙◌, sym, ap, inl, inr, true, false, not, ◌&&◌, ◌||◌,
  List, [], ◌∷◌, Option, some, none, length, get_elem?, set, leb, arith, if◌then◌else◌, Bool-cases,
}
use bosh_dotnet.Ssh.Environment.{Environment, IsDocumented}
use bosh_dotnet.Ssh.Status.{Status, ok, is_error, is_special, channel_write}
use bosh_dotnet.Ssh.Session.{Session, Channel, Attribute, channel, other, channels, long_max}
use bosh_dotnet.Ssh.Channel.Find.{use_default, number, get_current_channel_no}
use bosh_dotnet.Ssh.Channel.Find.Found.{find_channel_attr-found}
use bosh_dotnet.Ssh.Channel.Manage.{select_channel, delete_channel, write_closed, is_channel_none}
use bosh_dotnet.Ssh.Channel.Manage.Delete.{delete_channel-Deletes}
use bosh_dotnet.Ssh.Message.{send_channel_close, notify_close, msg_channel_close}
use bosh_dotnet.Ssh.Message.Close.{close_each}
use bosh_dotnet.Ssh.Channel.Response.{enqueue_response, crypt_unused}
use bosh_dotnet.Ssh.Message.Window.{not_error}
use bosh_dotnet.Ssh.Message.Table.{notify_close-HaveSameTable}

-- The channels whose write side is open.
abbrev pub writable : List Attribute → ℕ
writable [] = 0
writable (channel c ∷ l) = if c.is_write_closed then writable l else suc (writable l)
writable (other n ∷ l) = writable l

writable-set :
    (l : List Attribute) (k : ℕ) (c : Channel)
    → get_elem? l k ≡ some (channel c)
    → c.is_write_closed ≡ false
    → writable l ≡ suc (writable (set l k (channel (record c { is_write_closed = true }))))
writable-set [] k c h w = cc
writable-set (channel d ∷ l) zero c h w = let q : d ≡ c = cc in rw (q, w) refl
writable-set (other n ∷ l) zero c h w = cc
writable-set (channel d ∷ l) (suc k) c h w =
    let rest = writable-set l k c h w in
    elim (Bool-cases d.is_write_closed) [ inl t ↦ rw t rest | inr t ↦ rw t (ap suc rest) ]
writable-set (other n ∷ l) (suc k) c h w = writable-set l k c h w

writable-le : (l : List Attribute) → writable l ≤ length (channels l)
writable-le [] = omega arith
writable-le (channel c ∷ l) =
    let rest = writable-le l in
    elim (Bool-cases c.is_write_closed) [ inl t ↦ rw t (omega arith) | inr t ↦ rw t (omega arith) ]
writable-le (other n ∷ l) = writable-le l

module _ (e : Environment) (doc : IsDocumented e) where
  -- A selection changes no channel.
  pub select_channel-attributes :
      (s : Session) → (select_channel e s use_default channel_write).0.attributes ≡ s.attributes
  unfolding select_channel
  select_channel-attributes s = ground arith

  -- The notice of the last channel is never a plain success.
  notify_close_last : (s : Session) (n : ℕ) → (notify_close e s n true).1 ≢ ok
  unfolding notify_close
  notify_close_last s n h =
      let enqueued =
        enqueue_response e s msg_channel_close 1 n crypt_unused crypt_unused crypt_unused in
      elim (Bool-cases (is_error enqueued.1)) [
        | inl t ↦ let q : enqueued.1 ≡ ok = rw t at h in cc (rw q at t)
        | inr t ↦ cc (rw t at h)
      ]

  write_closed-writable :
      (s : Session) (k : ℕ) (c : Channel)
      → get_elem? s.attributes k ≡ some (channel c)
      → c.is_write_closed ≡ false
      → writable s.attributes ≡ suc (writable (write_closed s k c).attributes)
  unfolding write_closed
  write_closed-writable s k c h w = writable-set s.attributes k c h w

  -- A deletion that let the notice be sent with success closed one write side.
  delete_channel-writable :
      (s : Session) (n : ℕ)
      → let deleted = delete_channel e s n channel_write true in
        (is_error deleted.1 && not (is_special deleted.1)) ≡ false
        → (notify_close e deleted.0 n (is_special deleted.1)).1 ≡ ok
        → writable s.attributes ≡ suc (writable deleted.0.attributes)
  delete_channel-writable s n t h = elim (delete_channel-Deletes e s n channel_write true) [
    | inl (q, inl st) ↦ cc (rw st at t)
    | inl (q, inr (inl st)) ↦ cc (rw st at t)
    | inl (q, inr (inr (f, inl st))) ↦ cc (rw st at t)
    | inl (q, inr (inr (f, inr st))) ↦ absurd (notify_close_last _ n (rw st at h))
    | inr (k, c, f, a, inl (y, o, q, st)) ↦
        rw q (write_closed-writable s k c (find_channel_attr-found e s (number n) k c f).0 o)
    | inr (k, c, f, a, inr (y, q, st)) ↦ absurd (y refl)
  ]

  -- A write side that was closed with success is one fewer.
  send_channel_close-writable :
      (s : Session) (n : Option ℕ)
      → (send_channel_close e s n channel_write true).1 ≡ ok
      → writable s.attributes
        ≡ suc (writable (send_channel_close e s n channel_write true).0.attributes)
  unfolding send_channel_close
  send_channel_close-writable s none h = cc
  send_channel_close-writable s (some n) h =
      let deleted = delete_channel e s n channel_write true in
      elim (Bool-cases (not (leb n long_max) || is_channel_none channel_write)) [
        | inl t ↦ cc (rw t at h)
        | inr t ↦ elim (Bool-cases (is_error deleted.1 && not (is_special deleted.1))) [
          | inl u ↦ let q : deleted.1 ≡ ok = rw (t, u) at h in cc (rw q at u)
          | inr u ↦
              let same = notify_close-HaveSameTable e doc deleted.0 n (is_special deleted.1) in
              let fewer = delete_channel-writable s n u (rw (t, u) at h) in
              rw (t, u) (fewer ∙ ap (λ l. suc (writable l)) (sym same.attributes))
        ]
      ]

  close_each_error :
      (s : Session) (st : Status) (closed f : ℕ)
      → is_error st ≡ true
      → 0 < f
      → (close_each e s st closed f).2 ≡ true
  unfolding close_each
  close_each_error s st closed zero h b = absurd (omega arith)
  close_each_error s st closed (suc f) h b = rw h refl

  -- Enough rounds: one for each open write side, and one to stop.
  pub close_each-in_time :
      (f : ℕ) (s : Session) (st : Status) (closed : ℕ)
      → suc (writable s.attributes) < f
      → (close_each e s st closed f).2 ≡ true
  unfolding close_each
  close_each-in_time zero s st closed b = absurd (omega arith)
  close_each-in_time (suc f) s st closed b =
      let selected = select_channel e s use_default channel_write in
      let current = get_current_channel_no e selected.0 channel_write in
      let sent = send_channel_close e selected.0 current channel_write true in
      elim (Bool-cases (is_error st)) [
        | inl t ↦ rw t refl
        | inr t ↦ elim (Bool-cases (is_error selected.1)) [
          | inl u ↦ rw (t, u) refl
          | inr u ↦ elim (Bool-cases (is_error sent.1)) [
            | inl v ↦ rw (t, u) (close_each_error sent.0 sent.1 (closed + 1) f v (omega arith))
            | inr v ↦
                let fewer = send_channel_close-writable selected.0 current (not_error sent.1 v) in
                let same = ap writable (select_channel-attributes s) in
                rw (t, u) (close_each-in_time f sent.0 sent.1 (closed + 1) (omega arith))
          ]
        ]
      ]

  close_each_stopped :
      (s : Session) (st : Status) (closed f : ℕ)
      → is_error st ≡ true
      → (close_each e s st closed f).1 ≡ closed
  unfolding close_each
  close_each_stopped s st closed zero h = refl
  close_each_stopped s st closed (suc f) h = rw h refl

  -- No more channels are counted as closed than had an open write side, and one that failed.
  pub close_each-le :
      (f : ℕ) (s : Session) (st : Status) (closed : ℕ)
      → (close_each e s st closed f).1 ≤ closed + suc (writable s.attributes)
  unfolding close_each
  close_each-le zero s st closed = omega arith
  close_each-le (suc f) s st closed =
      let selected = select_channel e s use_default channel_write in
      let current = get_current_channel_no e selected.0 channel_write in
      let sent = send_channel_close e selected.0 current channel_write true in
      elim (Bool-cases (is_error st)) [
        | inl t ↦ rw t (omega arith)
        | inr t ↦ elim (Bool-cases (is_error selected.1)) [
          | inl u ↦ rw (t, u) (omega arith)
          | inr u ↦ elim (Bool-cases (is_error sent.1)) [
            | inl v ↦ rw (t, u) (omega (arith, close_each_stopped sent.0 sent.1 (closed + 1) f v))
            | inr v ↦
                let fewer = send_channel_close-writable selected.0 current (not_error sent.1 v) in
                let same = ap writable (select_channel-attributes s) in
                rw (t, u) (omega (arith, close_each-le f sent.0 sent.1 (closed + 1)))
          ]
        ]
      ]
