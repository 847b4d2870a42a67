-- ===== src/Stream/Flush/Bound.antt =====
-- `flush` with a limit: how many rounds it takes and how many events it handles.
use pyzmq.Base.{
  ℕ, zero, suc, ◌+◌, ◌≤◌, ◌<◌, ◌≡◌, ◌⊎◌, refl, inl, inr, Bool, true, false, ◌&&◌, ◌||◌, Option,
  none, some, Result, ok, err, arith, if◌then◌else◌, Bool-cases, ◌==◌, ltb,
}
use pyzmq.Base.Mask.{Mask, any}
use pyzmq.Base.Exec.{Exec, pure, ◌>>=◌}
use pyzmq.Base.Post.{Post, Post-continue, Post-if, Post-option, post_ok, always}
use pyzmq.Stream.{
  Driver, Stream, World, sending, handle_recv, handle_send, rebuild_io_state, check_closed,
}
use pyzmq.Stream.Flush.{
  Round, stopped, going, flush, flush_loop, receive_round, send_round, after_send, after_receive,
  round, go_on, next_events, poll_now, update_flag, close_flush, finish, mark_flushed,
}

-- Only events that can be handled: those of a poll for the flag that `update_flag` gives.
abbrev IsReady : {Net : Type 0} → Mask → Stream Net → Type 0
IsReady events s = (events.pollerr ≡ false) × (events.pollout ≡ true → sending s ≡ true)

-- What is known of a round that started with `n` events handled.
abbrev Counted : {Net : Type 0} → ℕ → Round → Stream Net → Type 0
Counted n (stopped m) s = m ≤ n + 2
Counted n (going flag events m) s = (n < m) × (m ≤ n + 2) × IsReady events s

-- A poll answers none but the events it was asked for (libzmq never returns POLLERR for a zmq
-- socket).
abbrev pub IsHonest : {Net : Type 0} → Driver Net → Type 0
IsHonest {Net} drv =
    (m events : Mask) (net : Net)
    → drv.poll m net ≡ ok events
    → (events.pollerr ≡ false) × (events.pollout ≡ true → m.pollout ≡ true)

module _ {Net : Type 0} (drv : Driver Net) (world : World Net) (honest : IsHonest drv) where
  receive_round_bound :
      (events : Mask) (n : ℕ) (s : Stream Net)
      → Post {S = Stream Net}
          (λ m s'. (n ≤ m) × (m ≤ n + 1) × ((n < m) ⊎ (events.pollin ≡ false) × (s' ≡ s)))
          (receive_round drv world events n s).0
          (receive_round drv world events n s).1
  unfolding receive_round
  receive_round_bound events n s = elim (Bool-cases events.pollin) [
    | inl e ↦ rw e (
        Post-continue _ (λ _ _. Unit {0}) (handle_recv drv world s).0 _ _ (always _ _)
          (λ _ _. (omega arith, omega arith, inl (omega arith))))
    | inr e ↦ rw e (omega arith, omega arith, inr (refl, refl))
  ]

  send_round_bound :
      (events : Mask) (n : ℕ) (s : Stream Net)
      → Post {S = Stream Net}
          (λ m s'. (n ≤ m) × (m ≤ n + 1) × ((events.pollout && sending s) ≡ true → n < m))
          (send_round drv world events n s).0
          (send_round drv world events n s).1
  unfolding send_round
  send_round_bound events n s = elim (Bool-cases (events.pollout && sending s)) [
    | inl e ↦ rw e (
        Post-continue _ (λ _ _. Unit {0}) (handle_send drv world s).0 _ _ (always _ _)
          (λ _ _. (omega arith, omega arith, λ _. omega arith)))
    | inr e ↦ rw e (omega arith, omega arith, λ q. absurd (cc))
  ]

  answer-IsReady :
      (flag : Mask) (net : Net) (r : Result Mask) (s : Stream Net)
      → (flag.pollout ≡ true → sending s ≡ true)
      → drv.poll flag net ≡ r
      → Post {S = Stream Net} (λ events s'. IsReady events s') r s
  answer-IsReady flag net (err x) s h e = tt
  answer-IsReady flag net (ok events) s h e =
      let (no_err, asked) = honest flag events net e in (no_err, λ q. h (asked q))

  poll_now-IsReady :
      (flag : Mask) (s : Stream Net)
      → (flag.pollout ≡ true → sending s ≡ true)
      → Post {S = Stream Net}
          (λ events s'. IsReady events s')
          (poll_now drv world flag s).0
          (poll_now drv world flag s).1
  unfolding poll_now
  poll_now-IsReady flag s h =
      Post-option _ s.socket _ _ (λ _. tt)
        (λ net _. answer-IsReady flag net (drv.poll flag net) s h refl)

  next_events-IsReady :
      (flag : Mask) (s : Stream Net)
      → Post {S = Stream Net}
          (λ next s'. IsReady next.1 s')
          (next_events drv world flag s).0
          (next_events drv world flag s).1
  unfolding next_events
  next_events-IsReady flag s =
      Post-if _ (any (update_flag drv world flag s)) _ _
        (λ e.
          Post-continue _ (λ events s'. IsReady events s')
            (poll_now drv world (update_flag drv world flag s) s).0 _ _
            (poll_now-IsReady (update_flag drv world flag s) s (λ q. ground arith)) (λ a h. h))
        (λ e. (refl, λ q. absurd (cc)))

  after_send-Counted :
      (flag : Mask) (n m : ℕ) (b : Bool) (s : Stream Net)
      → n < m
      → m ≤ n + 2
      → Post {S = Stream Net}
          (λ r s'. Counted n r s')
          (after_send drv world flag m b s).0
          (after_send drv world flag m b s).1
  unfolding after_send
  after_send-Counted flag n m false s h k = k
  after_send-Counted flag n m true s h k =
      Post-continue _ (λ next s'. IsReady next.1 s') (next_events drv world flag s).0 _ _
        (next_events-IsReady flag s) (λ next r. (h, k, r))

  after_receive-Counted :
      (flag events : Mask) (n m : ℕ) (b : Bool) (s : Stream Net)
      → n ≤ m
      → m ≤ n + 1
      → (n < m) ⊎ ((events.pollout && sending s) ≡ true)
      → Post {S = Stream Net}
          (λ r s'. Counted n r s')
          (after_receive drv world flag events m b s).0
          (after_receive drv world flag events m b s).1
  unfolding after_receive
  after_receive-Counted flag events n m false s h k g = omega arith
  after_receive-Counted flag events n m true s h k g =
      Post-continue _
        (λ m' s'. (m ≤ m') × (m' ≤ m + 1) × ((events.pollout && sending s) ≡ true → m < m'))
        (send_round drv world events m s).0 _ _ (send_round_bound events m s)
        (λ m' r. after_send-Counted flag n m' _ _ (grows m' r.0 r.2 g) (omega arith))
    where
      grows :
          (m' : ℕ)
          → m ≤ m'
          → ((events.pollout && sending s) ≡ true → m < m')
          → (n < m) ⊎ ((events.pollout && sending s) ≡ true)
          → n < m'
      grows m' a f (inl x) = omega arith
      grows m' a f (inr x) = omega (arith, f x)

  progress :
      (events : Mask) (n m : ℕ) (s s' : Stream Net)
      → any events ≡ true
      → events.pollerr ≡ false
      → (events.pollout ≡ true → sending s ≡ true)
      → (n < m) ⊎ (events.pollin ≡ false) × (s' ≡ s)
      → (n < m) ⊎ ((events.pollout && sending s') ≡ true)
  progress events n m s s' a no_err ready (inl h) = inl h
  progress events n m s s' a no_err ready (inr (h, same)) = inr (rw same (ground arith))

  round-Counted :
      (flag events : Mask) (n : ℕ) (s : Stream Net)
      → any events ≡ true
      → IsReady events s
      → Post {S = Stream Net}
          (λ r s'. Counted n r s')
          (round drv world flag events n s).0
          (round drv world flag events n s).1
  unfolding round
  round-Counted flag events n s a (no_err, ready) =
      Post-continue _
        (λ m s'. (n ≤ m) × (m ≤ n + 1) × ((n < m) ⊎ (events.pollin ≡ false) × (s' ≡ s)))
        (receive_round drv world events n s).0 _ _ (receive_round_bound events n s)
        (λ m r.
          after_receive-Counted flag events n m _ _ r.0 r.1
            (progress events n m s _ a no_err ready r.2))

  -- The answer of the loop: there is one, within the limit and one more.
  abbrev Limited : ℕ → Option ℕ → Type 0
  Limited limit r = (m : ℕ) × (r ≡ some m) × (m ≤ limit + 1)

  within : (limit n : ℕ) → 0 < limit → (limit == 0 || ltb n limit) ≡ true → n < limit
  within limit n h e = ground arith

  go_on-Limited :
      (limit n : ℕ) (next : Mask → Mask → ℕ → Exec (Stream Net) (Option ℕ)) (r : Round)
      (s : Stream Net)
      → Counted n r s
      → n < limit
      → ((f e : Mask) (m : ℕ) (s' : Stream Net)
          → n < m
          → m ≤ n + 2
          → IsReady e s'
          → Post {S = Stream Net} (λ x _. Limited limit x) (next f e m s').0 (next f e m s').1)
      → Post {S = Stream Net}
          (λ x _. Limited limit x)
          (go_on drv world next r s).0
          (go_on drv world next r s).1
  unfolding go_on
  go_on-Limited limit n next (stopped m) s c l k = (m, refl, omega arith)
  go_on-Limited limit n next (going f e m) s c l k = k f e m s c.0 c.1 c.2

  flush_loop-Limited :
      (fuel limit : ℕ) (flag events : Mask) (n : ℕ) (s : Stream Net)
      → 0 < limit
      → limit + 1 < fuel + n
      → n ≤ limit + 1
      → (any events ≡ true → IsReady events s)
      → Post {S = Stream Net}
          (λ r _. Limited limit r)
          (flush_loop drv world fuel limit flag events n s).0
          (flush_loop drv world fuel limit flag events n s).1
  unfolding flush_loop
  flush_loop-Limited zero limit flag events n s p enough small ready = absurd (omega arith)
  flush_loop-Limited (suc fuel) limit flag events n s p enough small ready =
      Post-if _ (any events && (limit == 0 || ltb n limit)) _ _
        (λ e.
          let (some_events, below) = split_and (any events) (limit == 0 || ltb n limit) e in
          Post-continue _ (λ r s'. Counted n r s') (round drv world flag events n s).0 _ _
            (round-Counted flag events n s some_events (ready some_events))
            (λ r c.
              go_on-Limited limit n (flush_loop drv world fuel limit) r _ c (within limit n p below)
                λ f e m s'' g k rd.
                  flush_loop-Limited fuel limit f e m s'' p (omega arith)
                    (omega (arith, within limit n p below)) (λ _. rd)))
        (λ e. (n, refl, small))
    where
      split_and : (a b : Bool) → (a && b) ≡ true → (a ≡ true) × (b ≡ true)
      split_and true b h = (refl, h)
      split_and false b h = absurd (cc)

  finish-Limited :
      (limit : ℕ) (b : Bool) (r : Option ℕ) (s : Stream Net)
      → Limited limit r
      → Post {S = Stream Net}
          (λ x _. Limited limit x)
          (close_flush drv world b r s).0
          (close_flush drv world b r s).1
  unfolding close_flush finish
  finish-Limited limit b none s (m, e, h) = absurd (cc)
  finish-Limited limit b (some n) s l =
      Post-continue _ (λ _ _. Unit {0}) (mark_flushed drv world n b s).0 _ _ (always _ _)
        (λ _ _.
          Post-continue _ (λ _ _. Unit {0}) (rebuild_io_state drv world _).0 _ _ (always _ _)
            (λ _ _. l))

  flush_rest :
      (limit : ℕ) (first : Mask × Mask) (b : Bool) (s : Stream Net)
      → 0 < limit
      → IsReady first.1 s
      → Post {S = Stream Net}
          (λ x _. Limited limit x)
          ((if any first.0
              then (flush_loop drv world (limit + 2) limit first.0 first.1 0
                  >>= close_flush drv world b)
              else pure (some 0))
            s).0
          ((if any first.0
              then (flush_loop drv world (limit + 2) limit first.0 first.1 0
                  >>= close_flush drv world b)
              else pure (some 0))
            s).1
  flush_rest limit first b s p rd = elim (Bool-cases (any first.0)) [
    | inl e ↦ rw e (
        Post-continue _ (λ x _. Limited limit x)
          (flush_loop drv world (limit + 2) limit first.0 first.1 0 s).0 _ _
          (flush_loop-Limited (limit + 2) limit first.0 first.1 0 s p (omega arith) (omega arith)
            (λ _. rd))
          (λ r l. finish-Limited limit b r _ l))
    | inr e ↦ rw e (0, refl, omega arith)
  ]

  flush-Post :
      (limit : ℕ) (flag : Mask) (s : Stream Net)
      → 0 < limit
      → Post {S = Stream Net}
          (λ x _. Limited limit x)
          (flush drv world (limit + 2) flag limit s).0
          (flush drv world (limit + 2) flag limit s).1
  unfolding flush
  flush-Post limit flag s p =
      Post-continue _ (λ _ _. Unit {0}) (check_closed drv world s).0 _ _ (always _ _)
        λ _ _.
          Post-continue _ (λ next s'. IsReady next.1 s') (next_events drv world flag _).0 _ _
            (next_events-IsReady flag _)
            λ first rd. flush_rest limit first (check_closed drv world s).1.flushed _ p rd

  -- With a limit that is not 0, on a driver whose polls are honest, `limit + 2` rounds of fuel are
  -- enough for `flush`: when it raises nothing it answers a count, of at most `limit + 1` events.
  pub flush_limited :
      (limit : ℕ) (flag : Mask) (s : Stream Net) (answer : Option ℕ)
      → 0 < limit
      → (flush drv world (limit + 2) flag limit s).0 ≡ ok answer
      → (m : ℕ) × (answer ≡ some m) × (m ≤ limit + 1)
  flush_limited limit flag s answer p h =
      post_ok (λ x _. Limited limit x) (flush drv world (limit + 2) flag limit s).0 _ answer
        (flush-Post limit flag s p) h
