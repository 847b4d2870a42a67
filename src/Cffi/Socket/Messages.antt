-- ===== src/Cffi/Socket/Messages.antt =====
-- Every message that is initialised for a receive is closed.
use pyzmq.Base.{
  ℕ, suc, ◌-◌, ◌≡◌, ◌≢◌, refl, ap, ◌∙◌, Bool, true, false, Option, none, Result, ok, err, Bytes,
  arith,
}
use pyzmq.Base.Exec.{pure, continue, bind-ok}
use pyzmq.Base.Int.{is_negative}
use pyzmq.Cffi.Calls.{retry_sys_call}
use pyzmq.Cffi.Socket.{
  Driver, Socket, on_net, call, initialised, msg_init, msg_close, finish_recv, recv_copy,
}

continue-pure : {S A B : Type 0} (r : Result A) (b : B) (s : S) → (continue r (λ _. pure b) s).1 ≡ s
continue-pure (ok a) b s = refl
continue-pure (err e) b s = refl

module _ {Net : Type 0} (drv : Driver Net) where
  finish_recv-live :
      (r : Result Bool) (s : Socket Net)
      → (finish_recv drv r s).0 ≢ ok none
      → (finish_recv drv r s).1.live_messages ≡ s.live_messages - 1
  unfolding finish_recv msg_close call on_net
  finish_recv-live (err e) s h = refl
  finish_recv-live (ok false) s h = absurd (h refl)
  finish_recv-live (ok true) s h = ap (λ (t : Socket Net). t.live_messages) (continue-pure _ _ _)

  -- The socket after `zmq_msg_init`, and after the call that receives.
  initialised_in : Socket Net → Socket Net
  initialised_in s = record s { net = (drv.msg_init s.net).1; live_messages = suc s.live_messages }

  received_in : ℕ → ℕ → Socket Net → Socket Net
  unfolding initialised_in
  received_in fuel flags s = record s {
    net = (retry_sys_call drv.errors fuel (drv.msg_recv flags) (drv.msg_init s.net).1).1;
    live_messages = suc s.live_messages;
  }

  recv_copy-finish_recv :
      (fuel flags : ℕ) (s : Socket Net)
      → is_negative (drv.msg_init s.net).0 ≡ false
      → recv_copy drv fuel flags s
        ≡ finish_recv drv
            (retry_sys_call drv.errors fuel (drv.msg_recv flags) (drv.msg_init s.net).1).0
            (received_in fuel flags s)
  unfolding recv_copy msg_init call initialised on_net received_in initialised_in
  recv_copy-finish_recv fuel flags s h =
      bind-ok (msg_init drv) _ s (initialised_in s) (drv.msg_init s.net).0 (rw h refl)

  -- If libzmq can always initialise an empty message, as it documents, then a receive that copies leaves
  -- as many messages alive as there were, whether it returns the bytes or raises, unless the fuel for
  -- the repeated call was used up.
  pub recv_copy-live :
      ((net : Net) → is_negative (drv.msg_init net).0 ≡ false)
      → (fuel flags : ℕ) (s : Socket Net) → (recv_copy drv fuel flags s).0 ≢ ok none
      → (recv_copy drv fuel flags s).1.live_messages ≡ s.live_messages
  unfolding received_in
  recv_copy-live inits fuel flags s h =
      let e = recv_copy-finish_recv fuel flags s (inits s.net) in
      ap (λ (r : Result (Option Bytes) × Socket Net). r.1.live_messages) e
      ∙ finish_recv-live _ (received_in fuel flags s)
          (λ k. h (ap (λ (r : Result (Option Bytes) × Socket Net). r.0) e ∙ k))
      ∙ omega arith
