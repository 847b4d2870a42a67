-- ===== src/Cffi/Poll/Retries.antt =====
-- A poll that signals interrupt is repeated with the time that is left.
use pyzmq.Base.{
  ℕ, zero, suc, ◌+◌, ◌-◌, ◌<◌, ◌≡◌, refl, sym, ap, ◌∙◌, true, false, some, none, List, [], ◌∷◌, ok,
  arith, length, nat_eq,
}
use pyzmq.Base.Exec.{bind-ok}
use pyzmq.Base.Int.{ℤ, pos, negsuc}
use pyzmq.Errors.{Errnos, interrupted_system_call, check_rc, is_minus_one, raised, known_errno}
use pyzmq.Cffi.Poll.{
  PollItem, Driver, finished, interrupted, set_revents, clipped, ms_passed, after_check,
  next_timeout, round, poll_loop,
}

unfoldable pub total : List ℕ → ℕ
total [] = 0
total (n ∷ ns) = n + total ns

-- What is left of a timeout after some milliseconds: nothing at the least, and a negative timeout,
-- which stands for no limit, whole.
unfoldable pub left : ℤ → ℕ → ℤ
left (pos t) ms = pos (t - ms)
left (negsuc t) ms = negsuc t

-- The milliseconds that count of a difference of two times: a clock that was put back counts none.
pub data Counted : ℤ → ℕ → Type 0 where
  forwards : {n : ℕ} → Counted (pos n) n
  backwards : {n : ℕ} → Counted (negsuc n) 0

-- The milliseconds that an interrupted call took, from its start to the next reading of the clock, which
-- is read for a positive timeout only.
pub data Measured {Net : Type 0} (drv : Driver Net) (start : ℕ) : ℤ → Net → ℕ → Net → Type 0 where
  timed :
      {t ms : ℕ} {net : Net}
      → Counted (drv.ms_between start (drv.monotonic net).0) ms
      → Measured drv start (pos (suc t)) net ms (drv.monotonic net).1
  expired : {net : Net} → Measured drv start (pos 0) net 0 net
  endless : {t : ℕ} {net : Net} → Measured drv start (negsuc t) net 0 net

-- libzmq's calls, one after the other, from the start: each answers -1 with EINTR, is given the items as
-- the one before left them and what is left of the timeout, and took so many milliseconds. At the end
-- stand the items and the world.
pub data Interruptions {Net : Type 0} (drv : Driver Net) (last : List PollItem) (end : Net)
    : List PollItem → ℤ → Net → List ℕ → Type 0 where
  here : {t : ℤ} → Interruptions drv last end last t end []
  again :
      {items : List PollItem} {t : ℤ} {net net' net'' : Net} {revents : List ℕ} {ms : ℕ}
      {mss : List ℕ}
      → drv.poll items t (drv.monotonic net).1 ≡ ((negsuc 0, revents), net')
      → drv.errno net' ≡ drv.errnos.eintr
      → Measured drv (drv.monotonic net).0 t net' ms net''
      → Interruptions drv last end (set_revents items revents) (left t ms) net'' mss
      → Interruptions drv last end items t net (ms ∷ mss)

left-zero : (t : ℤ) → left t 0 ≡ t
unfolding left
left-zero (pos t) = ap pos (omega arith)
left-zero (negsuc t) = refl

left-add : (t : ℤ) (m n : ℕ) → left (left t m) n ≡ left t (m + n)
unfolding left
left-add (pos t) m n = ap pos (omega arith)
left-add (negsuc t) m n = refl

next_timeout_lem : (t : ℤ) (ms : ℕ) → next_timeout t ms ≡ left t ms
unfolding next_timeout left
next_timeout_lem (pos t) ms = refl
next_timeout_lem (negsuc t) ms = refl

clipped_lem : {z : ℤ} {ms : ℕ} → Counted z ms → clipped z ≡ ms
unfolding clipped
clipped_lem forwards = refl
clipped_lem backwards = refl

check_rc-interrupted :
    (n : Errnos) (e : ℕ)
    → e ≡ n.eintr
    → check_rc n e (negsuc 0) none true ≡ some interrupted_system_call
unfolding check_rc raised known_errno is_minus_one
check_rc-interrupted n e h = ground arith

module _ {Net : Type 0} (drv : Driver Net) where
  ms_passed_lem :
      {start ms : ℕ} {t : ℤ} {net net' : Net}
      → Measured drv start t net ms net'
      → ms_passed drv t start net ≡ (ok ms, net')
  unfolding ms_passed
  ms_passed_lem (timed {net = net} c) = ap (λ m. (ok m, (drv.monotonic net).1)) (clipped_lem c)
  ms_passed_lem expired = refl
  ms_passed_lem endless = refl

  round-interrupted :
      {items : List PollItem} {t : ℤ} {net net' net'' : Net} {revents : List ℕ} {ms : ℕ}
      → drv.poll items t (drv.monotonic net).1 ≡ ((negsuc 0, revents), net')
      → drv.errno net' ≡ drv.errnos.eintr
      → Measured drv (drv.monotonic net).0 t net' ms net''
      → round drv items t net ≡ (ok (interrupted (set_revents items revents) ms), net'')
  unfolding round after_check
  round-interrupted a s m = rw (a, check_rc-interrupted drv.errnos _ s, ms_passed_lem m) refl

  round-finished :
      {items : List PollItem} {t : ℤ} {net after : Net} {rc : ℤ} {revents : List ℕ}
      → drv.poll items t (drv.monotonic net).1 ≡ ((rc, revents), after)
      → is_minus_one rc ≡ false
      → round drv items t net ≡ (ok (finished (set_revents items revents)), after)
  unfolding round after_check check_rc
  round-finished a r = rw (a, r) refl

  -- If libzmq's first calls are interrupted by signals, and the call that follows, for what is left of
  -- the timeout after the milliseconds that they took together, does not answer -1, then the loop
  -- returns the items with the events of that call, where its fuel is one more than the interruptions
  -- at the least. What is left is never below 0, and a negative timeout is left whole.
  pub poll_loop_retries :
      (items items' : List PollItem) (t rc : ℤ) (net net' after : Net) (revents mss : List ℕ)
      (fuel : ℕ)
      → Interruptions drv items' net' items t net mss
      → drv.poll items' (left t (total mss)) (drv.monotonic net').1 ≡ ((rc, revents), after)
      → is_minus_one rc ≡ false
      → length mss < fuel
      → poll_loop drv fuel items t net ≡ (ok (some (set_revents items' revents)), after)
  unfolding poll_loop total
  poll_loop_retries items items' t rc net net' after revents mss zero h e r f = absurd (omega arith)
  poll_loop_retries items items' t rc net net' after revents [] (suc fuel) here e r f =
      bind-ok (round drv items t) _ net after (finished (set_revents items revents)) (
        round-finished (ap (λ u. drv.poll items u (drv.monotonic net).1) (sym (left-zero t)) ∙ e) r)
  poll_loop_retries items items' t rc net net' after revents (ms ∷ mss) (suc fuel)
        (again {net'' = net''} {revents = revents'} a s m more) e r f =
      bind-ok (round drv items t) _ net net'' (interrupted (set_revents items revents') ms)
        (round-interrupted a s m)
      ∙ ap (λ u. poll_loop drv fuel (set_revents items revents') u net'') (next_timeout_lem t ms)
      ∙ poll_loop_retries (set_revents items revents') items' (left t ms) rc net'' net' after
          revents mss fuel more
          (ap (λ u. drv.poll items' u (drv.monotonic net').1) (left-add t ms (total mss)) ∙ e) r
          (omega arith)
