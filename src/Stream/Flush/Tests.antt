-- ===== src/Stream/Flush/Tests.antt =====
-- `flush` on a socket that is an inbox of two messages.
use pyzmq.Base.{ℕ, ◌≡◌, refl, ap, sym, ◌∙◌, true, some, ok, ok_injective, ◌≤◌, arith}
use pyzmq.Base.Mask.{Mask, mask}
use pyzmq.Stream.{
  init, on_recv, check_closed, add_io_state, update_handler, schedule, handle_recv, take_message,
  run_if_set, run_callback, rebuild_io_state,
}
use pyzmq.Stream.Tests.{inbox, idle, watching}
use pyzmq.Stream.Flush.{
  flush, poll_now, next_events, receive_round, send_round, after_send, after_receive, round, go_on,
  flush_loop, mark_flushed, finish, close_flush,
}
use pyzmq.Stream.Flush.Bound.{IsHonest, flush_limited}

inbox-IsHonest : IsHonest inbox
inbox-IsHonest m events ms h = (
  ap (λ (x : Mask). x.pollerr) (sym (ok_injective h)),
  λ p. ap (λ (x : Mask). x.pollout) (ok_injective h) ∙ p,
)

flushes_two : (flush inbox idle 4 (mask true true) 2 watching).0 ≡ ok (some 2)
unfolding init on_recv check_closed add_io_state update_handler schedule handle_recv take_message
    run_if_set run_callback rebuild_io_state flush poll_now next_events receive_round send_round
    after_send after_receive round go_on flush_loop mark_flushed finish close_flush
flushes_two = refl

flush_limited_example : (m : ℕ) × (some 2 ≡ some m) × (m ≤ 3)
flush_limited_example =
    flush_limited inbox idle inbox-IsHonest 2 (mask true true) watching (some 2) (omega arith)
      flushes_two
