-- ===== src/Ssh/Channel/Response/Enqueue.antt =====
-- enqueueResponse: the bytes of a response decode to its parameters, and one response waits.
use bosh_dotnet.Prelude.{
  ℕ, zero, suc, ◌+◌, ◌*◌, ◌^◌, ◌≤◌, ◌<◌, ◌≡◌, refl, ◌≢◌, inl, inr, ◌&&◌, List, [], ◌∷◌, ◌++◌,
  length, arith, ltb, leb, ◌==◌, ==_iff, Bool-cases,
}
use bosh_dotnet.Ssh.Environment.{Environment, HaveSameTable}
use bosh_dotnet.Ssh.Status.{ok, internal}
use bosh_dotnet.Ssh.Session.{Session, long_max}
use bosh_dotnet.Ssh.Channel.Response.{enqueue_response, response_payload, uint32_bytes}

-- The peer's reading of a payload: big-endian words of four bytes.
pub words : List ℕ → List ℕ
words (a ∷ b ∷ c ∷ d ∷ rest) = (a * 2 ^ 24 + b * 2 ^ 16 + c * 2 ^ 8 + d) ∷ words rest
words _ = []

abbrev pub first_words : ℕ → ℕ → ℕ → ℕ → ℕ → List ℕ
first_words zero n p q r = []
first_words (suc zero) n p q r = n ∷ []
first_words (suc (suc zero)) n p q r = n ∷ p ∷ []
first_words (suc (suc (suc zero))) n p q r = n ∷ p ∷ q ∷ []
first_words _ n p q r = n ∷ p ∷ q ∷ r ∷ []

words-uint32_bytes :
    (n : ℕ) (rest : List ℕ) → n < 2 ^ 32 → words (uint32_bytes n ++ rest) ≡ n ∷ words rest
unfolding words uint32_bytes
words-uint32_bytes n rest h = ground arith

words-response_payload :
    (k n p q r : ℕ)
    → k ≤ 4
    → n < 2 ^ 32
    → p < 2 ^ 32
    → q < 2 ^ 32
    → r < 2 ^ 32
    → words (response_payload k n p q r) ≡ first_words k n p q r
unfolding response_payload words uint32_bytes
words-response_payload zero n p q r h a b c d = refl
words-response_payload (suc zero) n p q r h a b c d = rw (words-uint32_bytes n [] a)
words-response_payload (suc (suc zero)) n p q r h a b c d =
    rw (words-uint32_bytes n _ a, words-uint32_bytes p [] b)
words-response_payload (suc (suc (suc zero))) n p q r h a b c d =
    rw (words-uint32_bytes n _ a, words-uint32_bytes p _ b, words-uint32_bytes q [] c)
words-response_payload (suc (suc (suc (suc zero)))) n p q r h a b c d = rw (
  words-uint32_bytes n _ a,
  words-uint32_bytes p _ b,
  words-uint32_bytes q _ c,
  words-uint32_bytes r [] d,
)
words-response_payload (suc (suc (suc (suc (suc k))))) n p q r h a b c d = absurd (omega arith)

module _ (e : Environment) (s : Session) (type k n p q r : ℕ) where
  -- A response that is accepted waits with its type, its payload decodes to the first `k` of its
  -- parameters wherever these are 32-bit words, nothing waited before, and no channel changes.
  pub enqueue_response-words :
      n < 2 ^ 32
      → p < 2 ^ 32
      → q < 2 ^ 32
      → r < 2 ^ 32
      → (enqueue_response e s type k n p q r).1 ≡ ok
      → let t = (enqueue_response e s type k n p q r).0 in
        (t.response.type ≡ type)
        × (words t.response.payload ≡ first_words k n p q r)
        × (s.response.type ≡ 0)
        × HaveSameTable s t
  unfolding enqueue_response
  enqueue_response-words a b c d h =
      elim (Bool-cases (ltb 0 type && leb type 255 && leb k 4 && leb n long_max)) [
        | inr t ↦ cc (rw t at h)
        | inl t ↦ elim (Bool-cases (s.response.type == 0)) [
          | inr u ↦ cc (rw (t, u) at h)
          | inl u ↦
              elim (Bool-cases (ltb e.max_response_size (length (response_payload k n p q r)))) [
                | inl v ↦ cc (rw (t, u, v) at h)
                | inr v ↦
                    rw (t, u, v)
                      (
                        refl,
                        words-response_payload k n p q r (ground arith) a b c d,
                        (==_iff _ _).0 u,
                        record {
                          attributes = refl;
                          curr_read_channel = refl;
                          curr_write_channel = refl;
                          channel_index = refl;
                        },
                      )
              ]
        ]
      ]

  -- While a response waits no other is accepted, and nothing changes.
  pub enqueue_response_waiting :
      s.response.type ≢ 0 → enqueue_response e s type k n p q r ≡ (s, internal)
  unfolding enqueue_response
  enqueue_response_waiting h = ground arith

  -- An enqueueing leaves the channel table alone, whatever it returns.
  pub enqueue_response-HaveSameTable : HaveSameTable s (enqueue_response e s type k n p q r).0
  unfolding enqueue_response
  enqueue_response-HaveSameTable = ground arith
