-- ===== src/Stream/Flush.antt =====
-- `ZMQStream.flush`: the loop runs on fuel and answers `none` when this is used up; with a limit the
-- limit is fuel enough (Stream/Flush/Bound).
pub mod Bound
pub mod Keeping
pub mod Tests
use pyzmq.Base.{
  ℕ, zero, suc, ◌+◌, Bool, true, false, not, ◌&&◌, ◌||◌, Option, none, some, List, [], ◌∷◌, ◌++◌,
  Result, ok, err, attribute_error, if◌then◌else◌, ◌==◌, ltb,
}
use pyzmq.Base.Mask.{Mask, mask, no_events, any}
use pyzmq.Base.Exec.{Exec, pure, raise, gets, modify, ◌>>=◌, ◌>>◌, when, continue}
use pyzmq.Stream.{
  Driver, Stream, World, Task, finishes_flush, is_open, sending, check_closed, handle_recv,
  handle_send, rebuild_io_state,
}

-- How a round ends: the socket was closed by a callback, or with a flag and events for the next.
pub data Round : Type 0 where
  stopped : ℕ → Round
  going : Mask → Mask → ℕ → Round

module _ {Net : Type 0} (drv : Driver Net) (world : World Net) where
  abbrev pub Method : Type 0 → Type 0
  Method A = Exec (Stream Net) A

  -- `flag & POLLIN | (self.sending() and flag & POLLOUT)`
  abbrev pub update_flag : Mask → Stream Net → Mask
  update_flag flag s = mask flag.pollin (sending s && flag.pollout)

  -- `self.poller.register(self.socket, flag)`, `self.poller.poll(0)`
  poll_now : Mask → Method Mask
  poll_now flag s = elim s.socket [
    | none ↦ (err attribute_error, s)
    | some net ↦ (drv.poll flag net, s)
  ]

  -- The events of the next round, and the flag that is left; nothing is polled for no flag.
  next_events : Mask → Method (Mask × Mask)
  unfolding poll_now
  next_events flag s =
      let flag' = update_flag flag s in
      if any flag'
      then (poll_now flag' >>= λ events. pure (flag', events)) s
      else (ok (flag', no_events), s)

  -- One round: a message is received and then one is sent, as far as the events tell, and the
  -- socket is still there.
  receive_round : Mask → ℕ → Method ℕ
  receive_round events count =
      if events.pollin then (handle_recv drv world >> pure (count + 1)) else pure count

  send_round : Mask → ℕ → Method ℕ
  send_round events count = do
    sends ← gets (λ s. events.pollout && sending s)
    if sends then (handle_send drv world >> pure (count + 1)) else pure count

  after_send : Mask → ℕ → Bool → Method Round
  unfolding next_events
  after_send flag count false = pure (stopped count)
  after_send flag count true = do next ← next_events flag; pure (going next.0 next.1 count)

  after_receive : Mask → Mask → ℕ → Bool → Method Round
  unfolding send_round after_send
  after_receive flag events count false = pure (stopped count)
  after_receive flag events count true = do
    handled ← send_round events count
    left ← gets is_open
    after_send flag handled left

  round : Mask → Mask → ℕ → Method Round
  unfolding receive_round after_receive
  round flag events count = do
    handled ← receive_round events count
    left ← gets is_open
    after_receive flag events handled left

  go_on : (Mask → Mask → ℕ → Method (Option ℕ)) → Round → Method (Option ℕ)
  go_on next (stopped count) = pure (some count)
  go_on next (going flag events count) = next flag events count

  pub flush_loop : ℕ → ℕ → Mask → Mask → ℕ → Method (Option ℕ)
  unfolding round go_on
  flush_loop zero limit flag events count s = (ok none, s)
  flush_loop (suc fuel) limit flag events count s =
      let rest = (round flag events count >>= go_on (flush_loop fuel limit)) s in
      if any events && (limit == 0 || ltb count limit) then rest else (ok (some count), s)

  -- The `_flushed` flag after the loop, and the call that resets it.
  mark_flushed : ℕ → Bool → Method (Unit {0})
  mark_flushed count already_flushed = do
    when (not (count == 0)) (modify (λ s. record s { flushed = true }))
    when (not (count == 0) && not already_flushed)
        (modify (λ s. record s { loop = s.loop ++ (finishes_flush ∷ []) }))
    when (count == 0 && already_flushed) (modify (λ s. record s { flushed = true }))

  finish : ℕ → Bool → Method (Option ℕ)
  unfolding mark_flushed
  finish count already_flushed = do
    mark_flushed count already_flushed
    rebuild_io_state drv world
    pure (some count)

  -- What comes after the loop, unless the fuel was used up.
  close_flush : Bool → Option ℕ → Method (Option ℕ)
  unfolding finish
  close_flush already_flushed none = pure none
  close_flush already_flushed (some count) = finish count already_flushed

  pub flush : ℕ → Mask → ℕ → Method (Option ℕ)
  unfolding close_flush next_events
  flush fuel flag limit = do
    check_closed drv world
    already_flushed ← gets (λ s. s.flushed)
    modify (λ s. record s { flushed = false })
    first ← next_events flag
    if any first.0
        then (do done ← flush_loop fuel limit first.0 first.1 0; close_flush already_flushed done)
        else pure (some 0)
