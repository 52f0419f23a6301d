-- ===== src/Ssh/Message/Open/Opened.antt =====
-- processChannelOpen that succeeds: the new channel is active, selected and has a full window.
use bosh_dotnet.Prelude.{
  ℕ, ◌+◌, ◌≤◌, ◌<◌, ◌≡◌, refl, sym, ◌∙◌, Bool, true, ◌&&◌, List, [], ◌∷◌, ◌++◌, some, length,
  length-append, ◌==◌, Bool-cases, inl, inr, arith,
}
use bosh_dotnet.Ssh.Environment.{Environment, IsDocumented, HaveSameTable}
use bosh_dotnet.Ssh.Status.{ok, is_error}
use bosh_dotnet.Ssh.Session.{Session, Channel, channel, long_max}
use bosh_dotnet.Ssh.Channel.Manage.Invariant.{IsWellFormed}
use bosh_dotnet.Ssh.Message.{get_window_size}
use bosh_dotnet.Ssh.Message.Open.{and_then, activate}
use bosh_dotnet.Ssh.Channel.Manage.{first_index, add_channel}
use bosh_dotnet.Ssh.Channel.Manage.Insert.{IsNewChannel, with_channel}
use bosh_dotnet.Ssh.Channel.Manage.Add.{
  IsFresh, first_index_attributes, add_channel_ok, add_channel-IsWellFormed,
}
use bosh_dotnet.Ssh.Channel.Response.{enqueue_response, send_enqueued_response}
use bosh_dotnet.Ssh.Channel.Response.Enqueue.{enqueue_response-HaveSameTable}
use bosh_dotnet.Ssh.Message.Open.{confirm_open, add_opened, msg_open_confirmation}
use bosh_dotnet.Ssh.Message.Table.{
  HaveSameTable-trans, HaveSameTable-IsWellFormed, send_enqueued_response-HaveSameTable,
}
use bosh_dotnet.Ssh.Message.Window.{IsReachable, not_error}
use bosh_dotnet.Ssh.Message.Open.Activate.{Holds, opened, get_window_size-same, activate_ok}

-- The session after a channel open message that was accepted.
abbrev pub IsOpened : Environment → Session → Session → ℕ → ℕ → List ℕ → Type 0
IsOpened e s t n size type =
    (c : Channel) × (t.attributes ≡ s.attributes ++ channel c ∷ [])
    × (t.curr_read_channel ≡ c.channel_id)
    × (t.curr_write_channel ≡ c.channel_id)
    × (t.max_packet_size ≡ size)
    × (c.is_active ≡ true)
    × (c.read_channel_no ≡ n)
    × (c.write_channel_no ≡ n)
    × (c.type ≡ type)
    × (c.window_size ≡ get_window_size e t)
    × (c.window_count ≡ get_window_size e t)

module _ (e : Environment) (doc : IsDocumented e) where
  sent-HaveSameTable :
      (s : Session) (n p window size : ℕ)
      → HaveSameTable s
          (and_then
            (enqueue_response e s msg_open_confirmation 4 n p window size)
            (λ u. send_enqueued_response e u)).0
  sent-HaveSameTable s n p window size =
      let enqueued = enqueue_response e s msg_open_confirmation 4 n p window size in
      let same = enqueue_response-HaveSameTable e s msg_open_confirmation 4 n p window size in
      elim (Bool-cases (is_error enqueued.1)) [
        | inl t ↦ rw t same
        | inr t ↦ rw t (
            HaveSameTable-trans s enqueued.0 (send_enqueued_response e enqueued.0).0 same
              (send_enqueued_response-HaveSameTable e doc enqueued.0))
      ]

  confirm_open_ok :
      (s t : Session) (n size : ℕ) (type arg1 : List ℕ) (c : Channel)
      → IsNewChannel c (first_index s).channel_index n size type arg1
      → t ≡ with_channel (first_index s) c
      → IsFresh s n
      → IsReachable e t
      → length s.attributes < e.failsafe_iterations_max
      → n ≤ long_max
      → (confirm_open e t n size).1 ≡ ok
      → IsOpened e s (confirm_open e t n size).0 n size type
  unfolding confirm_open
  confirm_open_ok s t n size type arg1 c made q fresh reach b m o =
      let window = get_window_size e t in
      let enqueued = enqueue_response e t msg_open_confirmation 4 n n window size in
      let sent = and_then enqueued (λ u. send_enqueued_response e u) in
      let same = sent-HaveSameTable t n n window size in
      let (w, short, bound) = reach in
      let held : Holds e sent.0 s.attributes c = record {
        attributes = rw (same.attributes, q, first_index_attributes e s) refl;
        read_current = rw (same.curr_read_channel, q) refl;
        reachable = (
          HaveSameTable-IsWellFormed t sent.0 same w,
          rw same.channel_index short,
          rw same.attributes bound,
        );
      } in
      elim (Bool-cases (is_error sent.1)) [
        | inl v ↦ let fine : sent.1 ≡ ok = rw v at o in cc (rw fine at v)
        | inr v ↦
            let (table, reads, writes, packet, limits) =
              activate_ok e s.attributes sent.0 n c held b fresh made.read_channel_no m
                (rw v at o) in
            let full =
              sym (get_window_size-same e s.attributes sent.0 (activate e sent.0 n).0 limits) in
            rw v (
              opened e s.attributes c (get_window_size e sent.0),
              table,
              reads,
              writes,
              packet ∙ made.max_packet_size,
              refl,
              made.read_channel_no,
              made.write_channel_no,
              made.type_text,
              full,
              full,
            )
      ]

  pub add_opened-IsOpened :
      (s : Session) (n size : ℕ) (type : List ℕ) (forwards : Bool) (arg1 : List ℕ)
      → IsWellFormed s
      → s.channel_index + 1 < e.max_intlength_short
      → length s.attributes + 1 < e.failsafe_iterations_max
      → n ≤ long_max
      → (add_opened e s (some n) size type forwards arg1).1 ≡ ok
      → IsOpened e s (add_opened e s (some n) size type forwards arg1).0 n size type
  unfolding add_opened
  add_opened-IsOpened s n size type forwards arg1 w short b m o =
      let added = add_channel e s n size type arg1 in
      elim (Bool-cases (forwards && length arg1 == 0)) [
        | inl u ↦ cc (rw u at o)
        | inr u ↦ elim (Bool-cases (is_error added.1)) [
          | inl v ↦ let fine : added.1 ≡ ok = rw (u, v) at o in cc (rw fine at v)
          | inr v ↦
              let (c, made, t, fresh, absent) =
                add_channel_ok e s n size type arg1 doc w (not_error added.1 v) in
              let kept = add_channel-IsWellFormed e s n size type arg1 doc w in
              let grown : length added.0.attributes ≡ length s.attributes + 1 =
                rw (t, first_index_attributes e s)
                  (omega (arith, length-append s.attributes (channel c ∷ []))) in
              let next : added.0.channel_index ≤ e.max_intlength_short = rw t (ground arith) in
              let reach : IsReachable e added.0 = (kept, next, omega arith) in
              rw (u, v)
                (confirm_open_ok s added.0 n size type arg1 c made t fresh reach (omega arith) m
                  (rw (u, v) at o))
        ]
      ]
