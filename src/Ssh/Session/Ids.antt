-- ===== src/Ssh/Session/Ids.antt =====
-- The channels and the channel IDs of an attribute list under the list operations that the
-- channel layer uses: an item added at the end, written in place, erased.
use bosh_dotnet.Prelude.{
  ℕ, zero, suc, ◌≤◌, ◌≡◌, refl, ap, ◌≢◌, inl, inr, List, [], ◌∷◌, ◌++◌, Option, some, length,
  get_elem?, set, erase_idx, arith,
}
use bosh_dotnet.Prelude.Items.{All, Has, Distinct}
use bosh_dotnet.Ssh.Session.{Channel, Attribute, channel, other, channels, ids}

pub ids-append :
    (l : List Attribute) (c : Channel) → ids (l ++ channel c ∷ []) ≡ ids l ++ c.channel_id ∷ []
ids-append [] c = refl
ids-append (channel d ∷ l) c = ap (◌∷◌ d.channel_id) (ids-append l c)
ids-append (other n ∷ l) c = ids-append l c

pub channels-append :
    (l : List Attribute) (c : Channel) → channels (l ++ channel c ∷ []) ≡ channels l ++ c ∷ []
channels-append [] c = refl
channels-append (channel d ∷ l) c = ap (◌∷◌ d) (channels-append l c)
channels-append (other n ∷ l) c = channels-append l c

pub length-channels-le : (l : List Attribute) → length (channels l) ≤ length l
length-channels-le [] = omega arith
length-channels-le (channel c ∷ l) = omega (arith, length-channels-le l)
length-channels-le (other n ∷ l) = omega (arith, length-channels-le l)

module _ (c d : Channel) where
  pub ids-set :
      (l : List Attribute) (k : ℕ)
      → get_elem? l k ≡ some (channel c)
      → c.channel_id ≡ d.channel_id
      → ids (set l k (channel d)) ≡ ids l
  ids-set [] k h e = refl
  ids-set (channel b ∷ l) zero h e = cc
  ids-set (other n ∷ l) zero h e = cc
  ids-set (channel b ∷ l) (suc k) h e = ap (◌∷◌ b.channel_id) (ids-set l k h e)
  ids-set (other n ∷ l) (suc k) h e = ids-set l k h e

  pub length-channels-set :
      (l : List Attribute) (k : ℕ)
      → get_elem? l k ≡ some (channel c)
      → length (channels (set l k (channel d))) ≡ length (channels l)
  length-channels-set [] k h = refl
  length-channels-set (channel b ∷ l) zero h = refl
  length-channels-set (other n ∷ l) zero h = cc
  length-channels-set (channel b ∷ l) (suc k) h = ap suc (length-channels-set l k h)
  length-channels-set (other n ∷ l) (suc k) h = length-channels-set l k h

pub All-ids-erase_idx {κ} :
    (P : ℕ → Type κ) (l : List Attribute) (k : ℕ) → All P (ids l) → All P (ids (erase_idx l k))
All-ids-erase_idx P [] k h = tt
All-ids-erase_idx P (channel c ∷ l) zero h = h.1
All-ids-erase_idx P (other n ∷ l) zero h = h
All-ids-erase_idx P (channel c ∷ l) (suc k) h = (h.0, All-ids-erase_idx P l k h.1)
All-ids-erase_idx P (other n ∷ l) (suc k) h = All-ids-erase_idx P l k h

pub Has-ids-erase_idx_of :
    (i : ℕ) (l : List Attribute) (k : ℕ) → Has i (ids (erase_idx l k)) → Has i (ids l)
Has-ids-erase_idx_of i [] k h = h
Has-ids-erase_idx_of i (channel c ∷ l) zero h = inr h
Has-ids-erase_idx_of i (other n ∷ l) zero h = h
Has-ids-erase_idx_of i (channel c ∷ l) (suc k) (inl e) = inl e
Has-ids-erase_idx_of i (channel c ∷ l) (suc k) (inr h) = inr (Has-ids-erase_idx_of i l k h)
Has-ids-erase_idx_of i (other n ∷ l) (suc k) h = Has-ids-erase_idx_of i l k h

pub Distinct-ids-erase_idx :
    (l : List Attribute) (k : ℕ) → Distinct (ids l) → Distinct (ids (erase_idx l k))
Distinct-ids-erase_idx [] k h = tt
Distinct-ids-erase_idx (channel c ∷ l) zero h = h.1
Distinct-ids-erase_idx (other n ∷ l) zero h = h
Distinct-ids-erase_idx (channel c ∷ l) (suc k) h =
    (λ m. h.0 (Has-ids-erase_idx_of c.channel_id l k m), Distinct-ids-erase_idx l k h.1)
Distinct-ids-erase_idx (other n ∷ l) (suc k) h = Distinct-ids-erase_idx l k h

pub length-channels-erase_idx-le :
    (l : List Attribute) (k : ℕ) → length (channels (erase_idx l k)) ≤ length (channels l)
length-channels-erase_idx-le [] k = omega arith
length-channels-erase_idx-le (channel c ∷ l) zero = omega arith
length-channels-erase_idx-le (other n ∷ l) zero = omega arith
length-channels-erase_idx-le (channel c ∷ l) (suc k) =
    omega (arith, length-channels-erase_idx-le l k)
length-channels-erase_idx-le (other n ∷ l) (suc k) = length-channels-erase_idx-le l k

module _ (c : Channel) where
  pub Has-ids_at :
      (l : List Attribute) (k : ℕ) → get_elem? l k ≡ some (channel c) → Has c.channel_id (ids l)
  Has-ids_at [] k h = cc
  Has-ids_at (channel d ∷ l) zero h = inl (cc)
  Has-ids_at (other n ∷ l) zero h = cc
  Has-ids_at (channel d ∷ l) (suc k) h = inr (Has-ids_at l k h)
  Has-ids_at (other n ∷ l) (suc k) h = Has-ids_at l k h

  -- An entry with another ID stays when this one is erased.
  pub Has-ids-erase_idx :
      (i : ℕ) (l : List Attribute) (k : ℕ)
      → get_elem? l k ≡ some (channel c)
      → c.channel_id ≢ i
      → Has i (ids l)
      → Has i (ids (erase_idx l k))
  Has-ids-erase_idx i [] k h n m = m
  Has-ids-erase_idx i (channel d ∷ l) zero h n (inl e) = absurd (n (cc))
  Has-ids-erase_idx i (channel d ∷ l) zero h n (inr m) = m
  Has-ids-erase_idx i (other x ∷ l) zero h n m = cc
  Has-ids-erase_idx i (channel d ∷ l) (suc k) h n (inl e) = inl e
  Has-ids-erase_idx i (channel d ∷ l) (suc k) h n (inr m) = inr (Has-ids-erase_idx i l k h n m)
  Has-ids-erase_idx i (other x ∷ l) (suc k) h n m = Has-ids-erase_idx i l k h n m

  -- Where no ID stands twice, the erased one is gone.
  pub not-Has-ids-erase_idx :
      (l : List Attribute) (k : ℕ)
      → get_elem? l k ≡ some (channel c)
      → Distinct (ids l)
      → Has c.channel_id (ids (erase_idx l k))
      → ⊥
  not-Has-ids-erase_idx [] k h d m = m
  not-Has-ids-erase_idx (channel b ∷ l) zero h d m = d.0 (rw (ap first h) m)
    where
      first : Option Attribute → ℕ
      first (some (channel x)) = x.channel_id
      first _ = 0
  not-Has-ids-erase_idx (other x ∷ l) zero h d m = cc
  not-Has-ids-erase_idx (channel b ∷ l) (suc k) h d (inl e) = d.0 (rw e (Has-ids_at l k h))
  not-Has-ids-erase_idx (channel b ∷ l) (suc k) h d (inr m) = not-Has-ids-erase_idx l k h d.1 m
  not-Has-ids-erase_idx (other x ∷ l) (suc k) h d m = not-Has-ids-erase_idx l k h d m
