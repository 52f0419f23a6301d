-- ===== src/Ssh/Channel/Access/Cursor.antt =====
-- The attribute cursor: a move forward is undone by a move back.
use bosh_dotnet.Prelude.{
  ℕ, zero, suc, ◌-◌, ◌≤◌, ◌≡◌, refl, sym, inl, inr, true, false, if_cases, Option-cases, ap, ◌∙◌,
  length, ltb, arith, Bool-cases,
}
use bosh_dotnet.Ssh.Environment.{Environment}
use bosh_dotnet.Ssh.Session.{
  AttributeType, ssh_channel, ssh_channel_type, ssh_channel_arg1, ssh_channel_arg2,
  ssh_channel_active, attribute_none, Channel,
}
use bosh_dotnet.Ssh.Channel.Access.{
  AttrType, attr_prev, attr_next, within, Walk, stands_at, edge, overrun, is_present, walk, step,
  access_function, settle, finish,
}

walk_back :
    (c : Channel) (g : ℕ) (t u : AttributeType)
    → is_present c t ≡ true
    → walk c attr_next (suc (suc (suc (suc g)))) t ≡ stands_at u
    → walk c attr_prev (suc (suc (suc (suc g)))) u ≡ stands_at t
unfolding walk
walk_back c g ssh_channel u p h = let q : u ≡ ssh_channel_type = cc in rw q refl
walk_back c g ssh_channel_type u p h = elim (Bool-cases (ltb 0 (length c.arg1))) [
  | inl a ↦ let q : u ≡ ssh_channel_arg1 = cc (rw a at h) in rw q refl
  | inr a ↦ elim (Bool-cases (ltb 0 (length c.arg2))) [
    | inl b ↦ let q : u ≡ ssh_channel_arg2 = cc (rw (a, b) at h) in rw q (rw a refl)
    | inr b ↦ let q : u ≡ ssh_channel_active = cc (rw (a, b) at h) in rw q (rw (b, a) refl)
  ]
]
walk_back c g ssh_channel_arg1 u p h = elim (Bool-cases (ltb 0 (length c.arg2))) [
  | inl b ↦ let q : u ≡ ssh_channel_arg2 = cc (rw b at h) in rw q (rw p refl)
  | inr b ↦ let q : u ≡ ssh_channel_active = cc (rw b at h) in rw q (rw (b, p) refl)
]
walk_back c g ssh_channel_arg2 u p h = let q : u ≡ ssh_channel_active = cc in rw q (rw p refl)
walk_back c g ssh_channel_active u p h = cc
walk_back c g attribute_none u p h = cc

-- The cursor itself does not decide what is present.
is_present-cursor_pos :
    (c : Channel) (u t : AttributeType)
    → is_present (record c { cursor_pos = u }) t ≡ is_present c t
is_present-cursor_pos c u ssh_channel_arg1 = refl
is_present-cursor_pos c u ssh_channel_arg2 = refl
is_present-cursor_pos c u _ = refl

walk-cursor_pos :
    (c : Channel) (get : AttrType) (u : AttributeType) (f : ℕ) (t : AttributeType)
    → walk (record c { cursor_pos = u }) get f t ≡ walk c get f t
unfolding walk
walk-cursor_pos c get u zero t = refl
walk-cursor_pos c get u (suc f) t = elim (Option-cases (step get t)) [
  | inl q ↦ rw (q, walk) refl
  | inr (t', q) ↦
      rw (q, walk) (rw (is_present-cursor_pos c u t', walk-cursor_pos c get u f t') refl)
]

settle_still : (c : Channel) → c.cursor_moved ≡ false → settle c ≡ c
settle_still c h =
    if_cases (λ (r : Channel). r ≡ c) c.cursor_moved
      (record c { cursor_pos = ssh_channel; cursor_moved = false }) c (λ q. cc) (λ q. refl)

finish_within :
    (c d : Channel) (r : Walk)
    → finish c r ≡ (d, within true)
    → (u : AttributeType) × (r ≡ stands_at u) × (d ≡ record c { cursor_pos = u })
unfolding finish
finish_within c d (stands_at u) h = (u, refl, ap (λ r. r.0) (sym h))
finish_within c d edge h = cc
finish_within c d overrun h = cc

finish_back :
    (c : Channel) (u : AttributeType) (r : Walk)
    → r ≡ stands_at c.cursor_pos
    → finish (record c { cursor_pos = u }) r ≡ (c, within true)
unfolding finish
finish_back c u r h = rw h refl

-- Where a search may take four rounds, a cursor that stands on a present attribute and moves to
-- the next one inside the channel comes back to where it was by a move to the previous one, and
-- the channel is what it was.
pub access_function-access_function :
    (e : Environment) (c d : Channel)
    → 4 ≤ e.failsafe_iterations_med
    → c.cursor_moved ≡ false
    → is_present c c.cursor_pos ≡ true
    → access_function e c attr_next ≡ (d, within true)
    → access_function e d attr_prev ≡ (c, within true)
unfolding access_function
access_function-access_function e c d b m p h =
    let rounds = e.failsafe_iterations_med in
    let still = settle_still c m in
    let (u, found, q) = finish_within c d (walk c attr_next rounds c.cursor_pos) (rw still at h) in
    let g = rounds - 4 in
    let enough : rounds ≡ suc (suc (suc (suc g))) = omega arith in
    let back : walk c attr_prev rounds u ≡ stands_at c.cursor_pos =
      rw enough (walk_back c g c.cursor_pos u p (rw enough at found)) in
    let moved = record c { cursor_pos = u } in
    rw (q, settle_still moved m)
      (finish_back c u (walk moved attr_prev rounds u)
        (walk-cursor_pos c attr_prev u rounds u ∙ back))
