-- ===== src/Cffi/Socket.antt =====
-- zmq/backend/cffi/socket.py: sending and receiving with messages of libzmq, and the life of a socket.
-- The state counts the messages that are initialised and not closed; payloads are bytes.
pub mod Messages
pub mod Tests
use pyzmq.Base.{
  ℕ, zero, suc, ◌+◌, ◌-◌, Bool, true, false, not, ◌&&◌, Option, none, some, List, [], ◌∷◌, Result,
  ok, err, Error, zmq_error, if◌then◌else◌, ◌==◌, Bytes,
}
use pyzmq.Base.Exec.{Exec, pure, raise, gets, modify, attempt, ◌>>=◌, ◌>>◌, when}
use pyzmq.Base.Int.{ℤ, pos, negsuc, is_negative}
use pyzmq.Cffi.Calls.{Errors, failure, check, settle_call, retry_sys_call}

-- The functions of libzmq, over a state of the world; `msg` is the number of a message.
pub record Driver (Net : Type 0) : Type 0 where
  pub errors : Errors Net
  pub msg_init : Net → ℤ × Net
  pub msg_init_size : Bytes → Net → ℤ × Net
  pub msg_send : ℕ → Net → ℤ × Net
  pub msg_recv : ℕ → Net → ℤ × Net
  pub msg_close : Net → ℤ × Net
  pub msg_data : Net → Bytes
  pub close : Net → ℤ × Net
  pub set_linger : ℤ → Net → Result (Unit {0}) × Net
  pub get_type : Net → Result (Unit {0}) × Net
  pub enotsock : ℕ

pub record Socket (Net : Type 0) : Type 0 where
  pub net : Net
  pub live_messages : ℕ
  pub closed : Bool
  pub has_handle : Bool

module _ {Net : Type 0} (drv : Driver Net) where
  abbrev pub Method : Type 0 → Type 0
  Method A = Exec (Socket Net) A

  -- A method of the world, of which only `net` is a part.
  unfoldable pub on_net : {A : Type 0} → Exec Net A → Method A
  on_net m s = ((m s.net).0, record s { net = (m s.net).1 })

  unfoldable pub call : (Net → ℤ × Net) → Method ℤ
  call f s = (ok (f s.net).0, record s { net = (f s.net).1 })

  -- A message that libzmq could initialise lives from here on.
  unfoldable pub initialised : ℤ → Method (Unit {0})
  initialised rc =
      if is_negative rc
      then pure tt
      else modify (λ s. record s { live_messages = suc s.live_messages })

  unfoldable pub msg_init : Method ℤ
  unfolding call initialised
  msg_init = call drv.msg_init >>= λ rc. initialised rc >> pure rc

  pub msg_init_size : Bytes → Method ℤ
  unfolding call initialised
  msg_init_size buf = call (drv.msg_init_size buf) >>= λ rc. initialised rc >> pure rc

  unfoldable pub msg_close : Method ℤ
  unfolding call
  msg_close = call drv.msg_close >>= λ rc.
      modify (λ s. record s { live_messages = s.live_messages - 1 }) >> pure rc

  -- `_send_copy`, after the send; `false` means that the fuel for the repeated call was used up.
  pub finish_send : Bool → Method Bool
  unfolding msg_close on_net
  finish_send false = pure false
  finish_send true = do rc ← msg_close; on_net (check drv.errors rc); pure true

  pub send_copy : ℕ → Bytes → ℕ → Method Bool
  unfolding msg_init_size on_net finish_send
  send_copy fuel buf flags = do
    rc ← msg_init_size buf
    on_net (check drv.errors rc)
    sent ← on_net (retry_sys_call drv.errors fuel (drv.msg_send flags))
    finish_send sent

  -- `recv` with `copy`, after the call: on an exception the message is closed and the exception goes
  -- on, else its bytes are copied before it is closed.
  unfoldable pub finish_recv : Result Bool → Method (Option Bytes)
  unfolding msg_close on_net
  finish_recv (err e) = msg_close >> raise e
  finish_recv (ok false) = pure none
  finish_recv (ok true) = do
    bytes ← gets (λ s. drv.msg_data s.net)
    rc ← msg_close
    on_net (check drv.errors rc)
    pure (some bytes)

  unfoldable pub recv_copy : ℕ → ℕ → Method (Option Bytes)
  unfolding msg_init on_net finish_recv
  recv_copy fuel flags = do
    msg_init
    outcome ← attempt (on_net (retry_sys_call drv.errors fuel (drv.msg_recv flags)))
    finish_recv outcome

  -- `close`: the handle is closed once; a failure of libzmq is raised after the socket counts as closed.
  pub set_linger_if : Option ℤ → Method (Unit {0})
  unfolding on_net
  set_linger_if none = pure tt
  set_linger_if (some linger) = on_net (drv.set_linger linger)

  pub close_handle : Option ℤ → Method ℤ
  unfolding set_linger_if call
  close_handle linger = set_linger_if linger >> call drv.close

  pub close : Option ℤ → Method (Unit {0})
  unfolding close_handle on_net
  close linger s =
      if s.closed
      then (ok tt, s)
      else ((if s.has_handle then close_handle linger else pure (pos 0)) >>= λ rc.
            modify (λ s. record s { closed = true })
            >> (if is_negative rc then on_net (check drv.errors rc) else pure tt))
          s

  -- `_check_closed_deep`: another entity may have closed the socket.
  pub settle_closed : Result (Unit {0}) → Method Bool
  settle_closed (ok _) = pure false
  settle_closed (err (zmq_error n)) =
      if n == drv.enotsock
      then modify (λ s. record s { closed = true }) >> pure true
      else raise (zmq_error n)
  settle_closed (err e) = raise e

  pub check_closed_deep : Method Bool
  unfolding settle_closed on_net
  check_closed_deep s =
      if s.closed then (ok true, s) else (attempt (on_net drv.get_type) >>= settle_closed) s
