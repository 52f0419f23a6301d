-- ===== src/Ssh/Channel/Find/Entries.antt =====
-- What the shared search loop finds and misses.
use bosh_dotnet.Prelude.{
  ℕ, zero, suc, ◌+◌, ◌<◌, ◌≡◌, inl, inr, Bool, true, false, List, [], ◌∷◌, ◌++◌, none, some, length,
  get_elem?, Bool-cases, arith,
}
use bosh_dotnet.Prelude.Items.{All}
use bosh_dotnet.Ssh.Session.{Channel, Attribute, channel, other, channels}
use bosh_dotnet.Ssh.Channel.Find.{find_entry}

module _ (test : Channel → Bool) where
  -- The entry found stands at that offset, and passes the test.
  abbrev pub StandsAt : ℕ → List Attribute → ℕ → Channel → Type 0
  StandsAt base l position c =
      (k : ℕ) × (position ≡ base + k) × (get_elem? l k ≡ some (channel c)) × (test c ≡ true)

  pub find_entry-StandsAt :
      (f base : ℕ) (l : List Attribute) (position : ℕ) (c : Channel)
      → find_entry test f base l ≡ some (position, c)
      → StandsAt base l position c
  unfolding find_entry
  find_entry-StandsAt zero base l q c h = cc
  find_entry-StandsAt (suc f) base [] q c h = cc
  find_entry-StandsAt (suc f) base (other n ∷ l) q c h =
      let (k, e, g, t) = find_entry-StandsAt f (suc base) l q c h in (suc k, omega arith, g, t)
  find_entry-StandsAt (suc f) base (channel d ∷ l) q c h = elim (Bool-cases (test d)) [
    | inl t ↦ (0, ground arith, ground arith, ground arith)
    | inr t ↦
        let (k, e, g, u) = find_entry-StandsAt f (suc base) l q c (rw t at h) in
        (suc k, omega arith, g, u)
  ]

  -- Nothing found within the limit: no channel passes the test.
  pub find_entry-none :
      (f base : ℕ) (l : List Attribute)
      → find_entry test f base l ≡ none
      → length l < f
      → All (λ c. test c ≡ false) (channels l)
  unfolding find_entry
  find_entry-none zero base l h b = absurd (omega arith)
  find_entry-none (suc f) base [] h b = tt
  find_entry-none (suc f) base (other n ∷ l) h b = find_entry-none f (suc base) l h (omega arith)
  find_entry-none (suc f) base (channel c ∷ l) h b = elim (Bool-cases (test c)) [
    | inl t ↦ cc (rw t at h)
    | inr t ↦ (t, find_entry-none f (suc base) l (rw t at h) (omega arith))
  ]

  -- A channel added behind others that fail the test is found there.
  pub find_entry-append :
      (f base : ℕ) (l : List Attribute) (c : Channel)
      → All (λ d. test d ≡ false) (channels l)
      → test c ≡ true
      → length l < f
      → find_entry test f base (l ++ channel c ∷ []) ≡ some (base + length l, c)
  unfolding find_entry
  find_entry-append zero base l c h t b = absurd (omega arith)
  find_entry-append (suc f) base [] c h t b = ground arith
  find_entry-append (suc f) base (other n ∷ l) c h t b =
      ground (arith, find_entry-append f (suc base) l c h t)
  find_entry-append (suc f) base (channel d ∷ l) c h t b =
      ground (arith, find_entry-append f (suc base) l c h.1 t)

  -- A channel that passes the test is found, or one before it.
  pub find_entry-some :
      (f base : ℕ) (l : List Attribute) (k : ℕ) (c : Channel)
      → get_elem? l k ≡ some (channel c)
      → test c ≡ true
      → length l < f
      → (r : ℕ × Channel) × (find_entry test f base l ≡ some r)
  unfolding find_entry
  find_entry-some f base [] k c h t b = cc
  find_entry-some zero base (x ∷ l) k c h t b = absurd (omega arith)
  find_entry-some (suc f) base (other n ∷ l) zero c h t b = cc
  find_entry-some (suc f) base (other n ∷ l) (suc k) c h t b =
      find_entry-some f (suc base) l k c h t (omega arith)
  find_entry-some (suc f) base (channel d ∷ l) zero c h t b = ((base, d), ground arith)
  find_entry-some (suc f) base (channel d ∷ l) (suc k) c h t b = elim (Bool-cases (test d)) [
    | inl u ↦ ((base, d), rw u)
    | inr u ↦ let (r, e) = find_entry-some f (suc base) l k c h t (omega arith) in (r, rw u e)
  ]
