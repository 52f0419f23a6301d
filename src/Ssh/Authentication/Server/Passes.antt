-- ===== src/Ssh/Authentication/Server/Passes.antt =====
-- processServerAuth with no credentials of the caller's, over any sequence of passes.
use bosh_dotnet.Prelude.{
  ◌≤◌, ◌≡◌, refl, sym, ◌∙◌, ◌⊎◌, inl, inr, true, false, ◌&&◌, [], ◌∷◌, ◌++◌, length, Bool-cases,
  if_cases, ap, arith,
}
use bosh_dotnet.Prelude.Items.{All}
use bosh_dotnet.Ssh.Status.{Status, is_error, is_special}
use bosh_dotnet.Ssh.Authentication.State.{
  AuthSession, AuthEnvironment, AuthDocumented, user_names, AuthResponse, authresponse_none,
  credential_none, credential_username,
}
use bosh_dotnet.Ssh.Authentication.Responses.{
  msg_userauth_success, send_response_success, send_response_failure,
}
use bosh_dotnet.Ssh.Authentication.Publickey.{Verdict}
use bosh_dotnet.Ssh.Authentication.UserAuth.{is_noop, process_user_auth}
use bosh_dotnet.Ssh.Authentication.Keeps.{successes, send_response_failure-Keeps}
use bosh_dotnet.Ssh.Authentication.Users.{
  KeepsUsers, KeepsUsers-refl, KeepsUsers-trans, Keeps-KeepsUsers, later_attempt-KeepsUsers,
}
use bosh_dotnet.Ssh.Authentication.Users.First.{Records, Records-KeepsUsers, first_attempt-Records}
use bosh_dotnet.Ssh.Authentication.Server.{
  accepted, again_after_noop, finish_pass, first_pass, later_pass, answered_pass,
  process_server_auth,
}

-- What the application and the server do between the start and the end of the authentication.
pub data PassStep (e : AuthEnvironment) : AuthSession → AuthSession → Type 0 where
  pass : (s : AuthSession) → PassStep e s (process_server_auth e s false).0
  answer : (s : AuthSession) (r : AuthResponse) → PassStep e s (record s { auth_response = r })

pub data Passes (e : AuthEnvironment) (s : AuthSession) : AuthSession → Type 0 where
  here : Passes e s s
  next : {t u : AuthSession} → Passes e s t → PassStep e t u → Passes e s u

-- There is at most one user name, the one whose hash is recorded.
pub record IsConsistent (e : AuthEnvironment) (s : AuthSession) : Type 0 where
  pub single : length (user_names s.attributes) ≤ 1
  pub unread : s.auth_read ≡ false → user_names s.attributes ≡ []
  pub matching : All (λ name. s.auth_user_name_hash ≡ e.sha1 name) (user_names s.attributes)

module _ (e : AuthEnvironment) (doc : AuthDocumented e) where
  again-KeepsUsers : (v : Verdict) → KeepsUsers v.0 (again_after_noop e v credential_username).0
  again-KeepsUsers v = elim (Bool-cases (is_special v.2 && is_noop v.1)) [
    | inl t ↦ rw t (later_attempt-KeepsUsers e doc v.0)
    | inr t ↦ rw t (KeepsUsers-refl v.0)
  ]

  first_pass-Records : (s : AuthSession) → Records e s (first_pass e s).0
  unfolding first_pass
  first_pass-Records s =
      let v = process_user_auth e s credential_none true in
      let w = again_after_noop e v credential_username in
      Records-KeepsUsers e s v.0 _ (first_attempt-Records e doc s)
        (KeepsUsers-trans (again-KeepsUsers v) (again-KeepsUsers w))

  finish_pass_state : (v : Verdict) → (finish_pass e v).0 ≡ record v.0 { auth_read = true }
  unfolding finish_pass
  finish_pass_state v = ground arith

  finish_pass-KeepsUsers :
      (s : AuthSession) (v : Verdict)
      → s.auth_read ≡ true
      → KeepsUsers s v.0
      → KeepsUsers s (finish_pass e v).0
  finish_pass-KeepsUsers s v read k = rw (finish_pass_state v) (record {
    users = k.users;
    auth_user_name_hash = k.auth_user_name_hash;
    auth_read = sym read;
    successes = k.successes;
  })

  later_pass-KeepsUsers : (s : AuthSession) → s.auth_read ≡ true → KeepsUsers s (later_pass e s).0
  unfolding later_pass
  later_pass-KeepsUsers s read =
      let v = process_user_auth e s credential_username false in
      elim (Bool-cases (is_special v.2 && is_noop v.1)) [
        | inl t ↦ rw t (later_attempt-KeepsUsers e doc s)
        | inr t ↦ rw t (finish_pass-KeepsUsers s v read (later_attempt-KeepsUsers e doc s))
      ]

  -- A pass behind the first one: success is sent only when the caller accepted.
  record IsAnswered (s t : AuthSession) : Type 0 where
    users : user_names t.attributes ≡ user_names s.attributes
    auth_user_name_hash : t.auth_user_name_hash ≡ s.auth_user_name_hash
    auth_read : t.auth_read ≡ s.auth_read
    successes : (accepted s.auth_response ≡ true) ⊎ (successes t.sent ≡ successes s.sent)

  KeepsUsers-IsAnswered : {s t : AuthSession} → KeepsUsers s t → IsAnswered s t
  KeepsUsers-IsAnswered k = record {
    users = k.users;
    auth_user_name_hash = k.auth_user_name_hash;
    auth_read = k.auth_read;
    successes = inr k.successes;
  }

  success-IsAnswered :
      (s : AuthSession)
      → accepted s.auth_response ≡ true
      → IsAnswered s (send_response_success e s).0
  unfolding send_response_success
  success-IsAnswered s a =
      elim (Bool-cases (is_error (e.open_packet_stream_ssh msg_userauth_success))) [
        | inl b ↦ rw b (record {
          users = refl;
          auth_user_name_hash = refl;
          auth_read = refl;
          successes = inl a;
        })
        | inr b ↦ rw b (record {
          users = refl;
          auth_user_name_hash = refl;
          auth_read = refl;
          successes = inl a;
        })
      ]

  answered_pass-IsAnswered :
      (s : AuthSession) → s.auth_read ≡ true → IsAnswered s (answered_pass e s).0
  unfolding answered_pass
  answered_pass-IsAnswered s read =
      let (t, st) = send_response_failure e s true in
      let k = Keeps-KeepsUsers (send_response_failure-Keeps e s true) in
      let u = record t { auth_response = authresponse_none } in
      let cleared : KeepsUsers s u = record {
        users = k.users;
        auth_user_name_hash = k.auth_user_name_hash;
        auth_read = k.auth_read;
        successes = k.successes;
      } in
      elim (Bool-cases (accepted s.auth_response)) [
        | inl a ↦ rw a (success-IsAnswered s a)
        | inr a ↦ elim (Bool-cases (is_error st)) [
          | inl b ↦ rw (a, b) (KeepsUsers-IsAnswered k)
          | inr b ↦
              rw (a, b)
                (KeepsUsers-IsAnswered
                  (KeepsUsers-trans cleared (later_pass-KeepsUsers u (k.auth_read ∙ read))))
        ]
      ]

  -- `processServerAuth` without credentials of the caller's sends a success response only in a pass
  -- behind the first one, and only when the caller has set the response to success.
  pub process_server_auth-accepted :
      (s : AuthSession)
      → ((s.auth_read ≡ true) × (accepted s.auth_response ≡ true))
        ⊎ (successes (process_server_auth e s false).0.sent ≡ successes s.sent)
  unfolding process_server_auth
  process_server_auth-accepted s =
      if_cases
        (λ (r : AuthSession × Status).
          ((s.auth_read ≡ true) × (accepted s.auth_response ≡ true))
          ⊎ (successes r.0.sent ≡ successes s.sent))
        s.auth_read (answered_pass e s) (finish_pass e (first_pass e s))
        (λ read. elim (answered_pass-IsAnswered s read).successes [
          | inl a ↦ inl (read, a)
          | inr same ↦ inr same
        ])
        (λ unread. rw (finish_pass_state (first_pass e s)) (inr (first_pass-Records s).successes))

  first_pass-IsConsistent :
      (s : AuthSession)
      → s.auth_read ≡ false
      → IsConsistent e s
      → IsConsistent e (finish_pass e (first_pass e s)).0
  first_pass-IsConsistent s unread c =
      let v = first_pass e s in
      let empty : user_names s.attributes ≡ [] = c.unread unread in
      rw (finish_pass_state v) (elim (first_pass-Records s).users [
        | inl same ↦ record {
          single = rw (same ∙ empty) (omega arith);
          unread = λ h. cc;
          matching = rw (same ∙ empty) tt;
        }
        | inr (name, added, hash) ↦
            let one : user_names v.0.attributes ≡ name ∷ [] =
              added ∙ ap (λ l. l ++ name ∷ []) empty in
            record { single = rw one (omega arith); unread = λ h. cc; matching = rw one (hash, tt) }
      ])

  answered_pass-IsConsistent :
      (s : AuthSession)
      → s.auth_read ≡ true
      → IsConsistent e s
      → IsConsistent e (answered_pass e s).0
  answered_pass-IsConsistent s read c =
      let a = answered_pass-IsAnswered s read in
      record {
        single = rw a.users c.single;
        unread = λ h. a.users ∙ c.unread (sym a.auth_read ∙ h);
        matching = rw (a.users, a.auth_user_name_hash) c.matching;
      }

  PassStep-IsConsistent : {s t : AuthSession} → PassStep e s t → IsConsistent e s → IsConsistent e t
  unfolding process_server_auth
  PassStep-IsConsistent (pass s) c =
      if_cases (λ (r : AuthSession × Status). IsConsistent e r.0) s.auth_read (answered_pass e s)
        (finish_pass e (first_pass e s)) (λ read. answered_pass-IsConsistent s read c)
        (λ unread. first_pass-IsConsistent s unread c)
  PassStep-IsConsistent (answer s r) c = record {
    single = c.single;
    unread = c.unread;
    matching = c.matching;
  }

  -- Over any passes of `processServerAuth` without credentials of the caller's, and any answers of
  -- the caller between them, from a session that has asked nothing and knows no user name: the
  -- attribute list never holds more than one user name, none before the first pass, and it is a name
  -- whose hash is the recorded one, with which later requests must agree.
  pub Passes-IsConsistent :
      {s t : AuthSession}
      → s.auth_read ≡ false
      → user_names s.attributes ≡ []
      → Passes e s t
      → IsConsistent e t
  Passes-IsConsistent unread empty here = record {
    single = rw empty (omega arith);
    unread = λ _. empty;
    matching = rw empty tt;
  }
  Passes-IsConsistent unread empty (next walk step) =
      PassStep-IsConsistent step (Passes-IsConsistent unread empty walk)
