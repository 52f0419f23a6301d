-- ===== src/Ssh/Message/Table.antt =====
-- Messages that ssh2_msg.c sends leave the channel table alone.
use bosh_dotnet.Prelude.{ℕ, ◌≡◌, refl, ◌∙◌, inl, inr, Bool, not, ◌&&◌, none, ltb, leb, Bool-cases}
use bosh_dotnet.Ssh.Environment.{Environment, IsDocumented, HaveSameTable}
use bosh_dotnet.Ssh.Status.{is_error}
use bosh_dotnet.Ssh.Session.{Session, long_max}
use bosh_dotnet.Ssh.Channel.Find.{is_channel_active}
use bosh_dotnet.Ssh.Channel.Manage.Invariant.{IsWellFormed}
use bosh_dotnet.Ssh.Channel.Attributes.{SshAttribute, get_channel_ext_attribute}
use bosh_dotnet.Ssh.Channel.Response.{
  enqueue_response, send_enqueued_response, enqueue_channel_data, crypt_unused,
}
use bosh_dotnet.Ssh.Channel.Response.Enqueue.{enqueue_response-HaveSameTable}
use bosh_dotnet.Ssh.Channel.Response.Encode.{encode_send_response-Leaves, HaveSameTable-refl}
use bosh_dotnet.Ssh.Message.{notify_close, msg_channel_close}

pub HaveSameTable-trans :
    (s t u : Session) → HaveSameTable s t → HaveSameTable t u → HaveSameTable s u
HaveSameTable-trans s t u h g = record {
  attributes = g.attributes ∙ h.attributes;
  curr_read_channel = g.curr_read_channel ∙ h.curr_read_channel;
  curr_write_channel = g.curr_write_channel ∙ h.curr_write_channel;
  channel_index = g.channel_index ∙ h.channel_index;
}

pub HaveSameTable-IsWellFormed :
    (s t : Session) → HaveSameTable s t → IsWellFormed s → IsWellFormed t
HaveSameTable-IsWellFormed s t h w = record {
  issued = rw (h.channel_index, h.attributes) w.issued;
  distinct = rw h.attributes w.distinct;
  read_current = rw (h.curr_read_channel, h.attributes) w.read_current;
  write_current = rw (h.curr_write_channel, h.attributes) w.write_current;
  counted = rw h.attributes w.counted;
}

module _ (e : Environment) where
  -- The searches see the table only.
  pub is_channel_active-HaveSameTable :
      (s t : Session) (excluded : ℕ)
      → HaveSameTable s t
      → is_channel_active e t excluded ≡ is_channel_active e s excluded
  unfolding is_channel_active
  is_channel_active-HaveSameTable s t excluded h = rw h.attributes refl

  pub get_channel_ext_attribute-HaveSameTable :
      (s t : Session) (attribute : SshAttribute)
      → HaveSameTable s t
      → get_channel_ext_attribute e t attribute ≡ get_channel_ext_attribute e s attribute
  unfolding get_channel_ext_attribute bosh_dotnet.Ssh.Channel.Find.get_current_channel_info
  get_channel_ext_attribute-HaveSameTable s t attribute h =
      rw (h.attributes, h.curr_read_channel) refl

module _ (e : Environment) (doc : IsDocumented e) (s : Session) where
  pub send_enqueued_response-HaveSameTable : HaveSameTable s (send_enqueued_response e s).0
  unfolding send_enqueued_response
  send_enqueued_response-HaveSameTable = elim (encode_send_response-Leaves e doc s none) [
    | inl q ↦ rw q (HaveSameTable-refl s)
    | inr (cleared, same, left) ↦ same
  ]

module _ (e : Environment) (doc : IsDocumented e) (s : Session) where
  pub enqueue_channel_data-HaveSameTable :
      (type n param : ℕ) → HaveSameTable s (enqueue_channel_data e s type n param).0
  unfolding enqueue_channel_data
  enqueue_channel_data-HaveSameTable type n param =
      let enqueued = enqueue_response e s type 2 n param crypt_unused crypt_unused in
      let same = enqueue_response-HaveSameTable e s type 2 n param crypt_unused crypt_unused in
      elim (Bool-cases (not (ltb 0 type && leb type 255 && leb n long_max))) [
        | inl t ↦ rw t (HaveSameTable-refl s)
        | inr t ↦ rw t (elim (Bool-cases (is_error enqueued.1)) [
          | inl u ↦ rw u same
          | inr u ↦ rw u (
              HaveSameTable-trans s enqueued.0 (send_enqueued_response e enqueued.0).0 same
                (send_enqueued_response-HaveSameTable e doc enqueued.0))
        ])
      ]

  pub notify_close-HaveSameTable :
      (n : ℕ) (is_last : Bool) → HaveSameTable s (notify_close e s n is_last).0
  unfolding notify_close
  notify_close-HaveSameTable n is_last =
      let enqueued =
        enqueue_response e s msg_channel_close 1 n crypt_unused crypt_unused crypt_unused in
      let same =
        enqueue_response-HaveSameTable e s msg_channel_close 1 n crypt_unused crypt_unused
          crypt_unused in
      elim (Bool-cases (is_error enqueued.1)) [
        | inl u ↦ rw u same
        | inr u ↦ rw u (
            HaveSameTable-trans s enqueued.0 (send_enqueued_response e enqueued.0).0 same
              (send_enqueued_response-HaveSameTable e doc enqueued.0))
      ]
