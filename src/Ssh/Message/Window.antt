-- ===== src/Ssh/Message/Window.antt =====
-- handleWindowAdjust: the window count stays in the upper half of the window.
use bosh_dotnet.Prelude.{
  ℕ, ◌+◌, ◌/◌, ◌≤◌, ◌<◌, ◌≡◌, refl, ◌∙◌, ap, ◌⊎◌, inl, inr, Bool, true, false, not, ◌&&◌, ◌||◌,
  length, ltb, leb, arith, Bool-cases, ℤ, pos, negsuc, pos_part, ◌+ℤ◌, ◌-ℤ◌, ltb_ℤ,
}
use bosh_dotnet.Ssh.Environment.{Environment, IsDocumented}
use bosh_dotnet.Ssh.Status.{Status, ok, is_error}
use bosh_dotnet.Ssh.Session.{Session, long_max}
use bosh_dotnet.Ssh.Channel.Manage.Invariant.{IsWellFormed}
use bosh_dotnet.Ssh.Channel.Attributes.{
  windowcount, windowsize, ext_stored, get_channel_ext_attribute, set_channel_ext_attribute,
}
use bosh_dotnet.Ssh.Channel.Attributes.Stored.{
  set_channel_ext_attribute_ok, get_current_channel_info-store,
  get_channel_ext_attribute-set_channel_ext_attribute,
}
use bosh_dotnet.Ssh.Channel.Response.{enqueue_channel_data}
use bosh_dotnet.Ssh.Message.{
  adjust_count, ensured, store_count, send_adjust, spend, handle_window_adjust, msg_window_adjust,
}
use bosh_dotnet.Ssh.Message.Table.{
  HaveSameTable-IsWellFormed, enqueue_channel_data-HaveSameTable,
  get_channel_ext_attribute-HaveSameTable,
}

ensured_ok : (st : Status) → ensured st ≡ ok → st ≡ ok
ensured_ok ok h = refl
ensured_ok _ h = cc

in_window :
    (v size : ℕ) (left : ℤ)
    → left ≡ pos v
    → (ltb_ℤ left (pos (size / 2)) || ltb_ℤ (pos size) left) ≡ false
    → (size / 2 ≤ v) × (v ≤ size)
in_window v size left q h = ground arith

in_spare :
    (v size : ℕ) (left : ℤ)
    → left ≡ pos v
    → pos_part left ≤ size
    → ltb_ℤ left (pos (size / 2)) ≡ false
    → (size / 2 ≤ v) × (v ≤ size)
in_spare v size left q m h = ground arith

window_bounds :
    (count size : ℕ) → not (ltb 0 count && leb count size) ≡ false → (0 < count) × (count ≤ size)
window_bounds count size h = ground arith

left-le : (count size length : ℕ) → count ≤ size → pos_part (pos count -ℤ pos length) ≤ size
left-le count size length h = ground arith

balance :
    (count length v credit : ℕ)
    → (pos count -ℤ pos length ≡ pos v) ⊎ (pos count -ℤ pos length +ℤ pos credit ≡ pos v)
    → (v + length ≡ count) ⊎ (v + length ≡ count + credit)
balance count length v credit (inl h) = inl (ground arith)
balance count length v credit (inr h) = inr (ground arith)

pub not_error : (st : Status) → is_error st ≡ false → st ≡ ok
not_error ok h = refl
not_error _ h = cc

both_ok : (a b : Bool) → (a || b) ≡ false → (a ≡ false) × (b ≡ false)
both_ok false false h = (refl, refl)
both_ok false true h = cc
both_ok true b h = cc

ok_pair : (r : Status × ℕ) → r.0 ≡ ok → r ≡ (ok, r.1)
ok_pair r h = ap (λ st. (st, r.1)) h

module _ (e : Environment) where
  -- A session whose channels the searches reach.
  abbrev pub IsReachable : Session → Type 0
  IsReachable s =
      IsWellFormed s
      × (s.channel_index ≤ e.max_intlength_short)
      × (length s.attributes < e.failsafe_iterations_max)

  -- A change of the count that leaves the size.
  abbrev pub Counts : Session → Session → ℕ → Type 0
  Counts s t v =
      (get_channel_ext_attribute e t windowcount ≡ (ok, v))
      × (get_channel_ext_attribute e t windowsize ≡ get_channel_ext_attribute e s windowsize)

  set_windowcount-Counts :
      (s : Session) (v : ℕ)
      → IsReachable s
      → (set_channel_ext_attribute e s windowcount v).1 ≡ ok
      → Counts s (set_channel_ext_attribute e s windowcount v).0 v
  unfolding get_channel_ext_attribute ext_stored
  set_windowcount-Counts s v (w, short, b) h =
      let (k, c, q, t) = set_channel_ext_attribute_ok e s windowcount v h in
      let written = ext_stored c windowcount v in
      (
        (get_channel_ext_attribute-set_channel_ext_attribute e s windowcount windowsize v w short b
            (inl (refl, refl)) h).0,
        rw t (rw (get_current_channel_info-store e s k c written w short b q refl, q)),
      )

  store_count-Counts :
      (s : Session) (left : ℤ)
      → IsReachable s
      → (store_count e s left).1 ≡ ok
      → (v : ℕ) × (left ≡ pos v) × Counts s (store_count e s left).0 v
  unfolding store_count
  store_count-Counts s (pos v) r h = (v, refl, set_windowcount-Counts s v r (ensured_ok _ h))
  store_count-Counts s (negsuc n) r h = cc

  module _ (doc : IsDocumented e) where
    send_adjust-Counts :
        (s : Session) (n size : ℕ) (left : ℤ)
        → IsReachable s
        → (send_adjust e s n size left).1 ≡ ok
        → (v : ℕ) × (left +ℤ pos (adjust_count size left) ≡ pos v)
          × (size / 2 ≤ v)
          × (v ≤ size)
          × Counts s (send_adjust e s n size left).0 v
    unfolding send_adjust
    send_adjust-Counts s n size left (w, short, b) h =
        let adjust = adjust_count size left in
        let sent = enqueue_channel_data e s msg_window_adjust n adjust in
        let refilled = left +ℤ pos adjust in
        let same = enqueue_channel_data-HaveSameTable e doc s msg_window_adjust n adjust in
        let reachable : IsReachable sent.0 = (
          HaveSameTable-IsWellFormed s sent.0 same w,
          rw same.channel_index short,
          rw same.attributes b,
        ) in
        elim (Bool-cases (not (ltb (size / 2) adjust && leb adjust size))) [
          | inl t ↦ cc (rw t at h)
          | inr t ↦ elim (Bool-cases (is_error sent.1)) [
            | inl u ↦ let refused : sent.1 ≡ ok = rw (t, u) at h in cc (rw refused at u)
            | inr u ↦
                elim (Bool-cases (ltb_ℤ refilled (pos (size / 2)) || ltb_ℤ (pos size) refilled)) [
                  | inl x ↦ cc (rw (t, u, x) at h)
                  | inr x ↦
                      let (v, q, (counted, sized)) =
                        store_count-Counts sent.0 refilled reachable (rw (t, u, x) at h) in
                      let (low, high) = in_window v size refilled q x in
                      (
                        v,
                        q,
                        low,
                        high,
                        rw (t, u, x)
                            (
                              counted,
                              sized
                                  ∙ get_channel_ext_attribute-HaveSameTable e s sent.0 windowsize
                                      same,
                            ),
                      )
                ]
          ]
        ]

    spend-Counts :
        (s : Session) (n size : ℕ) (left : ℤ)
        → IsReachable s
        → pos_part left ≤ size
        → (spend e s n size left).1 ≡ ok
        → (v : ℕ) × ((left ≡ pos v) ⊎ (left +ℤ pos (adjust_count size left) ≡ pos v))
          × (size / 2 ≤ v)
          × (v ≤ size)
          × Counts s (spend e s n size left).0 v
    unfolding spend
    spend-Counts s n size left r m h = elim (Bool-cases (ltb_ℤ left (pos (size / 2)))) [
      | inl t ↦
          let (v, q, low, high, counts) = send_adjust-Counts s n size left r (rw t at h) in
          (v, inr q, low, high, rw t counts)
      | inr t ↦
          let (v, q, counts) = store_count-Counts s left r (rw t at h) in
          let (low, high) = in_spare v size left q m t in (v, inl q, low, high, rw t counts)
    ]

    -- A data message of `length` bytes that is taken with success finds a window count between 1
    -- and the window size, and leaves one between half the size and the size: the old count less
    -- the length, to which the bytes that a window adjust message announces are added if one is
    -- sent. The window size stays.
    pub handle_window_adjust-InWindow :
        (s : Session) (n length : ℕ)
        → IsReachable s
        → (handle_window_adjust e s n length).1 ≡ ok
        → let t = (handle_window_adjust e s n length).0 in
          (count : ℕ) × (size : ℕ) × (v : ℕ) × (get_channel_ext_attribute e s windowcount
            ≡ (ok, count))
          × (get_channel_ext_attribute e s windowsize ≡ (ok, size))
          × (0 < count)
          × (count ≤ size)
          × (get_channel_ext_attribute e t windowcount ≡ (ok, v))
          × (get_channel_ext_attribute e t windowsize ≡ (ok, size))
          × (size / 2 ≤ v)
          × (v ≤ size)
          × ((v + length ≡ count)
              ⊎ (v + length ≡ count + adjust_count size (pos count -ℤ pos length)))
    unfolding handle_window_adjust
    handle_window_adjust-InWindow s n length r h =
        let count = get_channel_ext_attribute e s windowcount in
        let size = get_channel_ext_attribute e s windowsize in
        elim (Bool-cases (not (leb n long_max && ltb length e.max_intlength))) [
          | inl t ↦ cc (rw t at h)
          | inr t ↦ elim (Bool-cases (is_error count.0 || is_error size.0)) [
            | inl u ↦ cc (rw (t, u) at h)
            | inr u ↦ elim (Bool-cases (not (ltb 0 count.1 && leb count.1 size.1))) [
              | inl x ↦ cc (rw (t, u, x) at h)
              | inr x ↦
                  let left = pos count.1 -ℤ pos length in
                  let (fine, fine') = both_ok (is_error count.0) (is_error size.0) u in
                  let counted = ok_pair count (not_error count.0 fine) in
                  let sized = ok_pair size (not_error size.0 fine') in
                  let (low, high) = window_bounds count.1 size.1 x in
                  let (v, q, low', high', (recounted, resized)) =
                    spend-Counts s n size.1 left r (left-le count.1 size.1 length high)
                      (rw (t, u, x) at h) in
                  (
                    count.1,
                    size.1,
                    v,
                    counted,
                    sized,
                    low,
                    high,
                    rw (t, u, x) recounted,
                    rw (t, u, x) (resized ∙ sized),
                    low',
                    high',
                    balance count.1 length v (adjust_count size.1 left) q,
                  )
            ]
          ]
        ]
