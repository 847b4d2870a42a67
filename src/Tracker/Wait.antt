-- ===== src/Tracker/Wait.antt =====
-- `MessageTracker.wait` of zmq/sugar/tracker.py.
pub mod Keeping
pub mod Returns
use pyzmq.Base.{
  ℕ, ◌≡◌, refl, sym, ap, ◌∙◌, Bool, true, false, ◌&&◌, Option, none, some, List, [], ◌∷◌, Result,
  ok, err, not_done, if◌then◌else◌, arith, Bool-cases, inl, inr,
}
use pyzmq.Base.Exec.{
  Exec, pure, raise, gets, modify, ◌>>=◌, ◌>>◌, Keeps, Keeps-pure, Keeps-raise, Keeps-gets,
  Keeps-if, Keeps-bind, Keeps-then,
}
use pyzmq.Base.Gives.{
  Gives, Gives-bind, Gives-if, Gives-pure, Gives-raise, Gives-Keeps, Gives-weaken,
}
use pyzmq.Base.Post.{Post, Post-continue, Post-if, post_ok}
use pyzmq.Base.Int.{ℤ, pos, negsuc, is_negative, less_elapsed}
use pyzmq.Tracker.{Tracker, tracker, Peers, no_peers, add_peer, events_set, done, peers_done}

-- The events and the clock, over a state of the world: a wait ends when the event is set or when the
-- time is over. Times are counted in a unit of which a week has `week`.
pub record Driver (Net : Type 0) : Type 0 where
  pub is_set : ℕ → Net → Bool
  pub wait : ℕ → ℤ → Net → Net
  pub time : Net → ℕ × Net
  pub week : ℕ

module _ {Net : Type 0} (drv : Driver Net) where
  -- `timeout is False or timeout < 0`; `none` is False
  unfoldable pub remaining_of : Option ℤ → ℤ
  remaining_of none = pos drv.week
  remaining_of (some (pos n)) = pos n
  remaining_of (some (negsuc n)) = pos drv.week

  abbrev pub Method : Type 0 → Type 0
  Method A = Exec Net A

  -- Whether the events are set, in a state of the world.
  abbrev pub state : Net → ℕ → Bool
  state net e = drv.is_set e net

  abbrev pub now : Method ℕ
  now net = (ok (drv.time net).0, (drv.time net).1)

  -- `if remaining < 0: raise NotDone`, before the rest
  unfoldable pub in_time : {A : Type 0} → ℤ → Method A → Method A
  in_time remaining rest = if is_negative remaining then raise not_done else rest

  -- `if not evt.is_set(): raise NotDone`, before the rest
  unfoldable pub if_set : {A : Type 0} → Bool → Method A → Method A
  if_set set rest = if set then rest else raise not_done

  -- `toc = time.time(); remaining -= toc - tic; tic = toc`, before the rest
  unfoldable pub timed : {A : Type 0} → ℤ → ℕ → (ℤ → ℕ → Method A) → Method A
  timed remaining tic rest = now >>= λ toc. rest (less_elapsed remaining tic toc) toc

  unfoldable pub wait_event : ℕ → ℤ → Method Bool
  wait_event e remaining = modify (drv.wait e remaining) >> gets (drv.is_set e)

  -- The first loop of `wait`, which hands on `remaining` and `tic`.
  unfoldable pub wait_events : List ℕ → ℤ → ℕ → Method (ℤ × ℕ)
  unfolding in_time if_set timed wait_event
  wait_events [] remaining tic = pure (remaining, tic)
  wait_events (e ∷ es) remaining tic =
      in_time remaining
        (wait_event e remaining >>= λ set. if_set set (timed remaining tic (wait_events es)))

  unfoldable mutual
    unfolding wait_events remaining_of

    pub wait : Tracker → Option ℤ → Method (Unit {0})
    wait (tracker i es ps) timeout = do
      tic ← now
      (remaining, tic') ← wait_events es (remaining_of timeout) tic
      wait_peers ps remaining tic'

    -- The second loop of `wait`.
    pub wait_peers : Peers → ℤ → ℕ → Method (Unit {0})
    wait_peers no_peers remaining tic = pure tt
    wait_peers (add_peer p ps) remaining tic =
        in_time remaining (wait p (some remaining) >> timed remaining tic (wait_peers ps))

-- What `threading.Event` documents: an event stays set, as nothing here clears it.
pub record IsLasting {Net : Type 0} (drv : Driver Net) : Type 0 where
  pub waited :
      (e e' : ℕ) (r : ℤ) (net : Net)
      → drv.is_set e net ≡ true
      → drv.is_set e (drv.wait e' r net) ≡ true
  pub timed : (e : ℕ) (net : Net) → drv.is_set e net ≡ true → drv.is_set e (drv.time net).1 ≡ true
