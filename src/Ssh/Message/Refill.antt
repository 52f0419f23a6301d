-- ===== src/Ssh/Message/Refill.antt =====
-- handleWindowAdjust past the window: a peer that ignores the window is refused after the refill.
use bosh_dotnet.Prelude.{
  ℕ, ◌+◌, ◌/◌, ◌≤◌, ◌<◌, ◌≡◌, true, false, not, ◌&&◌, ◌||◌, ltb, leb, arith, pos, ◌+ℤ◌, ◌-ℤ◌, ltb_ℤ,
}
use bosh_dotnet.Ssh.Environment.{Environment}
use bosh_dotnet.Ssh.Status.{ok, invalid}
use bosh_dotnet.Ssh.Session.{Session, long_max}
use bosh_dotnet.Ssh.Channel.Attributes.{windowcount, windowsize, get_channel_ext_attribute}
use bosh_dotnet.Ssh.Channel.Response.{enqueue_channel_data}
use bosh_dotnet.Ssh.Message.{
  adjust_count, send_adjust, spend, handle_window_adjust, msg_window_adjust,
}

adjust_count_overrun :
    (count size length : ℕ)
    → count + size < length + size / 2
    → count ≤ size
    → adjust_count size (pos count -ℤ pos length) ≡ size
unfolding adjust_count
adjust_count_overrun count size length h m = ground arith

arguments_fit :
    (n length limit : ℕ)
    → n ≤ long_max
    → length < limit
    → not (leb n long_max && ltb length limit) ≡ false
arguments_fit n length limit h m = ground arith

window_fits :
    (count size : ℕ) → 0 < count → count ≤ size → not (ltb 0 count && leb count size) ≡ false
window_fits count size h m = ground arith

overrun_tests :
    (count size length : ℕ)
    → 0 < count
    → count ≤ size
    → count + size < length + size / 2
    → let left = pos count -ℤ pos length in
      let refilled = left +ℤ pos size in
      (ltb_ℤ left (pos (size / 2)) ≡ true)
      × (not (ltb (size / 2) size && leb size size) ≡ false)
      × ((ltb_ℤ refilled (pos (size / 2)) || ltb_ℤ (pos size) refilled) ≡ true)
overrun_tests count size length p m h = (ground arith, ground arith, ground arith)

-- A data message that takes more than the window count and half of the window is answered by a
-- window adjust message for the whole window, and then refused: the connection has announced bytes
-- that it does not count.
pub handle_window_adjust_overrun :
    (e : Environment) (s : Session) (n length count size : ℕ)
    → get_channel_ext_attribute e s windowcount ≡ (ok, count)
    → get_channel_ext_attribute e s windowsize ≡ (ok, size)
    → 0 < count
    → count ≤ size
    → n ≤ long_max
    → length < e.max_intlength
    → count + size < length + size / 2
    → (enqueue_channel_data e s msg_window_adjust n size).1 ≡ ok
    → handle_window_adjust e s n length
      ≡ ((enqueue_channel_data e s msg_window_adjust n size).0, invalid)
unfolding handle_window_adjust spend send_adjust
handle_window_adjust_overrun e s n length count size c z p m b l h sent =
    let (low, fits, over) = overrun_tests count size length p m h in
    rw (
      c,
      z,
      arguments_fit n length e.max_intlength b l,
      window_fits count size p m,
      low,
      adjust_count_overrun count size length h m,
      fits,
      sent,
      over,
    )
