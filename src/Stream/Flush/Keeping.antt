-- ===== src/Stream/Flush/Keeping.antt =====
-- `flush` keeps the stream consistent.
use pyzmq.Base.{
  ℕ, zero, suc, ◌+◌, Bool, true, false, ◌&&◌, ◌||◌, Option, none, some, [], ◌∷◌, ◌++◌, ◌==◌, ltb,
}
use pyzmq.Base.Mask.{Mask, any}
use pyzmq.Base.Exec.{
  Exec, pure, modify, gets, Keeps, Keeps-gets, Keeps-if, Keeps-bind, Keeps-then, Keeps-pure,
  keeps_rules, kept-if, kept-option,
}
use pyzmq.Stream.{
  Driver, Stream, World, Args, is_open, sending, check_closed, handle_recv, handle_send,
  rebuild_io_state, finishes_flush,
}
use pyzmq.Stream.State.{IsConsistent, rebuild_io_state-Keeps, handle_recv-Keeps, handle_send-Keeps}
use pyzmq.Stream.Flush.{
  Round, stopped, going, flush, flush_loop, receive_round, send_round, after_send, after_receive,
  round, go_on, next_events, poll_now, mark_flushed, finish, close_flush, update_flag,
}

module _ {Net : Type 0} (drv : Driver Net) (world : World Net)
    (keeps : (k : ℕ) (args : Args) → Keeps IsConsistent (world k args)) where
  poll_now-Keeps : (flag : Mask) → Keeps IsConsistent (poll_now drv world flag)
  unfolding poll_now
  poll_now-Keeps flag = record {
    at = λ s h. kept-option IsConsistent s.socket _ _ (λ e. h) (λ net e. h);
  }

  next_events-Keeps : (flag : Mask) → Keeps IsConsistent (next_events drv world flag)
  unfolding next_events
  next_events-Keeps flag = record {
    at = λ s h.
        kept-if IsConsistent (any (update_flag drv world flag s)) _ _
          (λ _.
            (Keeps-bind (poll_now drv world (update_flag drv world flag s)) _ (poll_now-Keeps _)
                (λ e. Keeps-pure _)).at
              s h)
          (λ _. h);
  }

  receive_round-Keeps : (e : Mask) (n : ℕ) → Keeps IsConsistent (receive_round drv world e n)
  unfolding receive_round
  receive_round-Keeps e n =
      Keeps-if e.pollin _ _
        (Keeps-then (handle_recv drv world) (pure (n + 1)) (handle_recv-Keeps drv world keeps)
          (Keeps-pure _))
        (Keeps-pure n)

  send_round-Keeps : (e : Mask) (n : ℕ) → Keeps IsConsistent (send_round drv world e n)
  unfolding send_round
  send_round-Keeps e n = Keeps-bind (gets (λ s. e.pollout && sending s)) _ (Keeps-gets _) λ b.
      Keeps-if b _ _
        (Keeps-then (handle_send drv world) (pure (n + 1)) (handle_send-Keeps drv world keeps)
          (Keeps-pure _))
        (Keeps-pure n)

  after_send-Keeps : (f : Mask) (n : ℕ) (b : Bool) → Keeps IsConsistent (after_send drv world f n b)
  unfolding after_send
  after_send-Keeps f n false = search keeps_rules
  after_send-Keeps f n true = search (keeps_rules, next_events-Keeps)

  after_receive-Keeps :
      (f e : Mask) (n : ℕ) (b : Bool) → Keeps IsConsistent (after_receive drv world f e n b)
  unfolding after_receive
  after_receive-Keeps f e n false = search keeps_rules
  after_receive-Keeps f e n true = search (keeps_rules, send_round-Keeps, after_send-Keeps)

  round-Keeps : (f e : Mask) (n : ℕ) → Keeps IsConsistent (round drv world f e n)
  unfolding round
  round-Keeps f e n = search (keeps_rules, receive_round-Keeps, after_receive-Keeps)

  go_on-Keeps :
      (next : Mask → Mask → ℕ → Exec (Stream Net) (Option ℕ)) (r : Round)
      → ((f e : Mask) (n : ℕ) → Keeps IsConsistent (next f e n))
      → Keeps IsConsistent (go_on drv world next r)
  unfolding go_on
  go_on-Keeps next (stopped n) k = search keeps_rules
  go_on-Keeps next (going f e n) k = k f e n

  flush_loop-Keeps :
      (fuel limit : ℕ) (flag events : Mask) (count : ℕ)
      → Keeps IsConsistent (flush_loop drv world fuel limit flag events count)
  unfolding flush_loop
  flush_loop-Keeps zero limit flag events count = record { at = λ s h. h }
  flush_loop-Keeps (suc fuel) limit flag events count = record {
    at = λ s h.
        kept-if IsConsistent (any events && (limit == 0 || ltb count limit)) _ _
          (λ _.
            (Keeps-bind (round drv world flag events count)
                (go_on drv world (flush_loop drv world fuel limit)) (round-Keeps flag events count)
                (λ r.
                  go_on-Keeps (flush_loop drv world fuel limit) r (flush_loop-Keeps fuel limit))).at
              s h)
          (λ _. h);
  }

  set_flushed : Keeps {S = Stream Net} IsConsistent (modify (λ s. record s { flushed = true }))
  set_flushed = record { at = λ s h. record { in_flag = h.in_flag; out_flag = h.out_flag } }

  clear_flushed : Keeps {S = Stream Net} IsConsistent (modify (λ s. record s { flushed = false }))
  clear_flushed = record { at = λ s h. record { in_flag = h.in_flag; out_flag = h.out_flag } }

  add_task :
      Keeps {S = Stream Net} IsConsistent
        (modify (λ s. record s { loop = s.loop ++ (finishes_flush ∷ []) }))
  add_task = record { at = λ s h. record { in_flag = h.in_flag; out_flag = h.out_flag } }

  mark_flushed-Keeps : (n : ℕ) (b : Bool) → Keeps IsConsistent (mark_flushed drv world n b)
  unfolding mark_flushed
  mark_flushed-Keeps n b = search (keeps_rules, set_flushed, add_task) depth 8

  finish-Keeps : (n : ℕ) (b : Bool) → Keeps IsConsistent (finish drv world n b)
  unfolding finish
  finish-Keeps n b = Keeps-then (mark_flushed drv world n b) _ (mark_flushed-Keeps n b) (
      Keeps-then (rebuild_io_state drv world) (pure (some n))
        (rebuild_io_state-Keeps drv world keeps) (Keeps-pure _))

  close_flush-Keeps : (b : Bool) (r : Option ℕ) → Keeps IsConsistent (close_flush drv world b r)
  unfolding close_flush
  close_flush-Keeps b none = search keeps_rules
  close_flush-Keeps b (some n) = finish-Keeps n b

  check_closed-Keeps : Keeps IsConsistent (check_closed drv world)
  unfolding check_closed
  check_closed-Keeps = record { at = λ s h. kept-if IsConsistent (is_open s) _ _ (λ _. h) (λ _. h) }

  pub flush-Keeps :
      (fuel : ℕ) (flag : Mask) (limit : ℕ) → Keeps IsConsistent (flush drv world fuel flag limit)
  unfolding flush
  flush-Keeps fuel flag limit =
      search
        (
          keeps_rules, check_closed-Keeps, clear_flushed, next_events-Keeps, flush_loop-Keeps,
          close_flush-Keeps,
        )
        depth 12
