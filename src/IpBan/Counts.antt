-- ===== src/IpBan/Counts.antt =====
-- The count that the files of KIPBan.hxx hold for an address, and what it decides.
use bosh_dotnet.Prelude.{
  ℕ, zero, suc, ◌<◌, ◌≡◌, refl, ap, ◌∙◌, true, false, ◌≢◌, Bool-cases, List, [], ◌∷◌, ◌++◌, ltb,
  ◌==◌, if_either, inl, inr, arith, subst,
}
use bosh_dotnet.Prelude.Items.{All}
use bosh_dotnet.Prelude.Decimal.{decimal, Fits, decimal-IsDigit}
use bosh_dotnet.IpBan.Directory.{Files, FilesLaws, InAddress}
use bosh_dotnet.IpBan.{
  Params, banned, dash, state_file, find_ip_connection_state, delete_attempts, reset_ip_state,
  create_ip_state, next_count, add_ip_ban_connection, is_banned, reset_ip_ban_connection,
}
use bosh_dotnet.IpBan.Names.{from_string-decimal}
use bosh_dotnet.IpBan.Events.{
  Event, connected, logged_in, address_of, run, same, since_login, same_eq, same_ne, count_after,
  count_after-banned, next-count_after, Fits-next,
}

-- The directory holds no file of the address, or only the one of its count.
data Counted {D : Type 0} {f : Files D} {folder : List ℕ} (laws : FilesLaws D f folder)
    (ip : List ℕ) (d : D) : ℕ → Type 0 where
  fresh : laws.fitting d ip ≡ [] → Counted laws ip d 0
  counted :
      (n : ℕ)
      → Fits 9 n
      → laws.fitting d ip ≡ (decimal 9 n ++ (dash ∷ ip)) ∷ []
      → Counted laws ip d n

module _ {D : Type 0} (f : Files D) (p : Params) (laws : FilesLaws D f p.ban_ip_directory)
    (ip : List ℕ) (dotted : All InAddress ip) where
  find-Counted :
      (d : D) (n : ℕ) → Counted laws ip d n → (find_ip_connection_state f p d ip).count ≡ n
  unfolding find_ip_connection_state
  find-Counted d n (fresh e) = rw (laws.find-fitting d ip dotted, e) refl
  find-Counted d n (counted _ fits e) =
      rw (laws.find-fitting d ip dotted, e)
        (ap (λ s. s.count) (from_string-decimal n ip (record { ip = ip; count = 0 }) fits dotted))

  delete_attempts-none :
      (k : ℕ) (d : D) (name : List ℕ)
      → laws.fitting d ip ≡ []
      → laws.fitting (delete_attempts f k d name) ip ≡ []
  unfolding delete_attempts
  delete_attempts-none zero d name h = h
  delete_attempts-none (suc k) d name h =
      let e = laws.fitting-none d name ip dotted h in
      if_either (λ x. laws.fitting x ip ≡ []) (f.delete_file d name).0 (f.delete_file d name).1
        (delete_attempts f k (f.delete_file d name).1 name) e
        (delete_attempts-none k (f.delete_file d name).1 name e)

  delete_attempts-deleted :
      (k : ℕ) (d : D) (name : List ℕ)
      → (f.delete_file d name).0 ≡ true
      → delete_attempts f (suc k) d name ≡ (f.delete_file d name).1
  unfolding delete_attempts
  delete_attempts-deleted k d name h = rw h refl

  reset-none :
      (d : D) (n : ℕ) → Counted laws ip d n → laws.fitting (reset_ip_state f p d ip) ip ≡ []
  unfolding reset_ip_state
  reset-none d n (fresh e) =
      delete_attempts-none 10 d (state_file p ip (find_ip_connection_state f p d ip).count) e
  reset-none d n (counted _ fits e) =
      let found = find-Counted d n (counted n fits e) in
      let (deleted, gone) = laws.fitting-delete d (decimal 9 n) ip (decimal-IsDigit 9 n) dotted e in
      ap (λ c. laws.fitting (delete_attempts f 10 d (state_file p ip c)) ip) found
      ∙ ap (λ x. laws.fitting x ip) (delete_attempts-deleted 9 d (state_file p ip n) deleted)
      ∙ gone

  reset_ip_ban_connection-Counted :
      (d : D) (n : ℕ)
      → (p.ban_max_connections == 0) ≡ false
      → Counted laws ip d n
      → Counted laws ip (reset_ip_ban_connection f p d ip) 0
  unfolding reset_ip_ban_connection
  reset_ip_ban_connection-Counted d n some_max c = rw some_max (fresh (reset-none d n c))

  add_ip_ban_connection-Counted :
      (d : D) (n : ℕ)
      → (p.ban_max_connections == 0) ≡ false
      → Fits 9 (next_count f p n)
      → Counted laws ip d n
      → Counted laws ip (add_ip_ban_connection f p d ip) (next_count f p n)
  unfolding add_ip_ban_connection create_ip_state
  add_ip_ban_connection-Counted d n some_max fits c =
      let m = next_count f p n in
      rw (some_max, find-Counted d n c)
        (counted m fits (
          laws.fitting-create (reset_ip_state f p d ip) (decimal 9 m) ip (decimal-IsDigit 9 m)
            dotted (reset-none d n c)))

  module _ (a : List ℕ) (other_dotted : All InAddress a) (ne : a ≢ ip) where
    delete_attempts_other :
        (k : ℕ) (d : D) (n : ℕ)
        → laws.fitting (delete_attempts f k d (state_file p a n)) ip ≡ laws.fitting d ip
    unfolding delete_attempts
    delete_attempts_other zero d n = refl
    delete_attempts_other (suc k) d n =
        let e =
          laws.delete_other d (decimal 9 n) a ip (decimal-IsDigit 9 n) other_dotted dotted ne in
        let left = (f.delete_file d (state_file p a n)).1 in
        if_either (λ x. laws.fitting x ip ≡ laws.fitting d ip)
          (f.delete_file d (state_file p a n)).0 left (delete_attempts f k left (state_file p a n))
          e (delete_attempts_other k left n ∙ e)

    reset_other : (d : D) → laws.fitting (reset_ip_state f p d a) ip ≡ laws.fitting d ip
    unfolding reset_ip_state
    reset_other d = delete_attempts_other 10 d (find_ip_connection_state f p d a).count

    reset_connection_other :
        (d : D) → laws.fitting (reset_ip_ban_connection f p d a) ip ≡ laws.fitting d ip
    unfolding reset_ip_ban_connection
    reset_connection_other d =
        if_either (λ x. laws.fitting x ip ≡ laws.fitting d ip) (p.ban_max_connections == 0) d
          (reset_ip_state f p d a) refl (reset_other d)

    add_connection_other :
        (d : D) → laws.fitting (add_ip_ban_connection f p d a) ip ≡ laws.fitting d ip
    unfolding add_ip_ban_connection create_ip_state
    add_connection_other d =
        let n = next_count f p (find_ip_connection_state f p d a).count in
        if_either (λ x. laws.fitting x ip ≡ laws.fitting d ip) (p.ban_max_connections == 0) d
          (create_ip_state f p (reset_ip_state f p d a) a n) refl
          (laws.create_other (reset_ip_state f p d a) (decimal 9 n) a ip (decimal-IsDigit 9 n)
              other_dotted dotted ne
            ∙ reset_other d)

  Counted_same :
      (d e : D) (n : ℕ)
      → laws.fitting e ip ≡ laws.fitting d ip
      → Counted laws ip d n
      → Counted laws ip e n
  Counted_same d e n h (fresh g) = fresh (h ∙ g)
  Counted_same d e n h (counted _ fits g) = counted n fits (h ∙ g)

  run-Counted :
      (es : List Event) (d : D)
      → 0 < p.ban_max_connections
      → p.ban_max_connections < banned
      → All (λ e. All InAddress (address_of e)) es
      → laws.fitting d ip ≡ []
      → Counted laws ip (run f p es d) (count_after p (since_login ip es))
  unfolding run
  run-Counted [] d low high addresses h =
      let t : ltb p.ban_max_connections 0 ≡ false = ground arith in rw t (fresh h)
  run-Counted (connected a ∷ es) d low high (a_dotted, addresses) h =
      let some_max : (p.ban_max_connections == 0) ≡ false = ground arith in
      let before = run-Counted es d low high addresses h in
      let n = since_login ip es in
      elim (Bool-cases (same a ip)) [
        | inl t ↦
            rw (t, same_eq a ip t)
              (subst (Counted laws ip (add_ip_ban_connection f p (run f p es d) ip))
                (next-count_after f p n high)
                (add_ip_ban_connection-Counted (run f p es d) (count_after p n) some_max
                  (Fits-next f p (count_after p n) high) before))
        | inr t ↦ rw t (
            Counted_same (run f p es d) (add_ip_ban_connection f p (run f p es d) a)
              (count_after p n) (add_connection_other a a_dotted (same_ne a ip t) (run f p es d))
              before)
      ]
  run-Counted (logged_in a ∷ es) d low high (a_dotted, addresses) h =
      let some_max : (p.ban_max_connections == 0) ≡ false = ground arith in
      let zero_count : ltb p.ban_max_connections 0 ≡ false = ground arith in
      let before = run-Counted es d low high addresses h in
      let n = since_login ip es in
      elim (Bool-cases (same a ip)) [
        | inl t ↦
            rw (t, zero_count, same_eq a ip t)
              (reset_ip_ban_connection-Counted (run f p es d) (count_after p n) some_max before)
        | inr t ↦ rw t (
            Counted_same (run f p es d) (reset_ip_ban_connection f p (run f p es d) a)
              (count_after p n) (reset_connection_other a a_dotted (same_ne a ip t) (run f p es d))
              before)
      ]

  -- For a directory of the documented behaviour, dotted addresses, a limit between 1 and 99998 and
  -- an address that no file of the directory fits at the start: behind any sequence of connections
  -- and logins of any addresses, each with its AddIPBanConnection or ResetIPBanConnection, IsBanned
  -- says whether the address has connected more often than the limit since it last logged in.
  pub is_banned-run :
      (es : List Event) (d : D)
      → 0 < p.ban_max_connections
      → p.ban_max_connections < banned
      → All (λ e. All InAddress (address_of e)) es
      → laws.fitting d ip ≡ []
      → is_banned f p (run f p es d) ip ≡ ltb p.ban_max_connections (since_login ip es)
  unfolding is_banned
  is_banned-run es d low high addresses h =
      let some_max : (p.ban_max_connections == 0) ≡ false = ground arith in
      rw
        (
          some_max,
          find-Counted (run f p es d) (count_after p (since_login ip es))
              (run-Counted es d low high addresses h),
        )
        (count_after-banned p (since_login ip es) high)
