-- ===== src/Cffi/Socket/Tests.antt =====
-- A libzmq whose only message is "hi", and which a signal interrupts once; one message is alive already.
use pyzmq.Base.{
  ℕ, zero, suc, ◌≡◌, ◌≢◌, refl, true, false, none, some, Option, Result, ok, codes, Bytes,
}
use pyzmq.Base.Int.{ℤ, pos, negsuc}
use pyzmq.Errors.{check_rc, is_minus_one, raised, known_errno}
use pyzmq.Cffi.Calls.{retry_sys_call, settle_call, failure, check, raise_failure}
use pyzmq.Cffi.Socket.{
  Driver, Socket, recv_copy, msg_init, on_net, finish_recv, msg_close, call, initialised,
}
use pyzmq.Cffi.Socket.Messages.{recv_copy-live}

abbrev receive : ℕ → ℤ × ℕ
receive zero = (pos 2, zero)
receive (suc n) = (negsuc 0, n)

-- The state is the number of interruptions to come.
abbrev small : Driver ℕ
small = record {
  errors = record { errno = λ net. 4; errnos = record { eintr = 4; eagain = 11; eterm = 156 } };
  msg_init = λ net. (pos 0, net);
  msg_init_size = λ b net. (pos 0, net);
  msg_send = λ flags net. (pos 2, net);
  msg_recv = λ flags net. receive net;
  msg_close = λ net. (pos 0, net);
  msg_data = λ net. codes "hi";
  close = λ net. (pos 0, net);
  set_linger = λ z net. (ok tt, net);
  get_type = λ net. (ok tt, net);
  enotsock = 88;
}

abbrev one_alive : Socket ℕ
one_alive = record { net = 1; live_messages = 1; closed = false; has_handle = true }

hi_is_received : (recv_copy small 2 0 one_alive).0 ≡ ok (some (codes "hi"))
unfolding recv_copy msg_init on_net finish_recv msg_close call initialised retry_sys_call
    settle_call failure check raise_failure check_rc is_minus_one raised known_errno
hi_is_received = refl

some_is_not_none : (r : Result (Option Bytes)) → r ≡ ok (some (codes "hi")) → r ≢ ok none
some_is_not_none r h = λ k. cc

not_stuck : (recv_copy small 2 0 one_alive).0 ≢ ok none
not_stuck = some_is_not_none (recv_copy small 2 0 one_alive).0 hi_is_received

recv_copy-live_example : (recv_copy small 2 0 one_alive).1.live_messages ≡ 1
recv_copy-live_example = recv_copy-live small (λ net. refl) 2 0 one_alive not_stuck
