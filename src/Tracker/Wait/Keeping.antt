-- ===== src/Tracker/Wait/Keeping.antt =====
-- What waiting keeps: the events that are set, and the trackers that are done.
use pyzmq.Base.{ℕ, ◌≡◌, refl, Bool, true, Option, some, List, [], ◌∷◌, not_done, arith}
use pyzmq.Base.Exec.{Exec, raise, Keeps, Keeps-pure, Keeps-raise, Keeps-if, Keeps-bind, Keeps-then}
use pyzmq.Base.Int.{ℤ, is_negative, less_elapsed}
use pyzmq.Tracker.{Tracker, tracker, Peers, no_peers, add_peer, events_set, done, peers_done}
use pyzmq.Tracker.Wait.{
  state, Driver, remaining_of, now, in_time, if_set, timed, wait_event, wait_events, wait,
  wait_peers, IsLasting,
}

module _ {Net : Type 0} (drv : Driver Net) (lasting : IsLasting drv) where
  unfoldable pub Later : Net → Net → Type 0
  Later net net' = (e : ℕ) → drv.is_set e net ≡ true → drv.is_set e net' ≡ true

  module _ (e₀ : ℕ) where
    abbrev pub Stays : Net → Type 0
    Stays net = drv.is_set e₀ net ≡ true

    pub now-Keeps : Keeps Stays (now drv)
    now-Keeps = record { at = λ net h. lasting.timed e₀ net h }

    in_time-Keeps :
        {A : Type 0} (r : ℤ) (m : Exec Net A) → Keeps Stays m → Keeps Stays (in_time drv r m)
    unfolding in_time
    in_time-Keeps r m k = Keeps-if (is_negative r) (raise not_done) m (Keeps-raise not_done) k

    if_set-Keeps :
        {A : Type 0} (b : Bool) (m : Exec Net A) → Keeps Stays m → Keeps Stays (if_set drv b m)
    unfolding if_set
    if_set-Keeps b m k = Keeps-if b m (raise not_done) k (Keeps-raise not_done)

    pub timed-Keeps :
        {A : Type 0} (r : ℤ) (tic : ℕ) (rest : ℤ → ℕ → Exec Net A)
        → ((r : ℤ) (tic : ℕ) → Keeps Stays (rest r tic))
        → Keeps Stays (timed drv r tic rest)
    unfolding timed
    timed-Keeps r tic rest k =
        Keeps-bind (now drv) _ now-Keeps (λ toc. k (less_elapsed r tic toc) toc)

    pub wait_event-Keeps : (e : ℕ) (r : ℤ) → Keeps Stays (wait_event drv e r)
    unfolding wait_event
    wait_event-Keeps e r = record { at = λ net h. lasting.waited e₀ e r net h }

    pub wait_events-Keeps : (es : List ℕ) (r : ℤ) (tic : ℕ) → Keeps Stays (wait_events drv es r tic)
    unfolding wait_events
    wait_events-Keeps [] r tic = Keeps-pure _
    wait_events-Keeps (e ∷ es) r tic = in_time-Keeps r _ (
        Keeps-bind (wait_event drv e r) _ (wait_event-Keeps e r)
          (λ set. if_set-Keeps set _ (timed-Keeps r tic _ (wait_events-Keeps es))))

    mutual
      unfolding wait

      pub wait-Keeps : (t : Tracker) (timeout : Option ℤ) → Keeps Stays (wait drv t timeout)
      wait-Keeps (tracker i es ps) timeout = Keeps-bind (now drv) _ now-Keeps (λ tic.
          Keeps-bind (wait_events drv es (remaining_of drv timeout) tic) _
            (wait_events-Keeps es _ tic) (λ p. wait_peers-Keeps ps p.0 p.1))

      pub wait_peers-Keeps : (ps : Peers) (r : ℤ) (tic : ℕ) → Keeps Stays (wait_peers drv ps r tic)
      wait_peers-Keeps no_peers r tic = Keeps-pure _
      wait_peers-Keeps (add_peer p ps) r tic = in_time-Keeps r _ (
          Keeps-then (wait drv p (some r)) _ (wait-Keeps p (some r))
            (timed-Keeps r tic _ (wait_peers-Keeps ps)))

  -- What lasts for the single events lasts for sets of events and for trackers.
  pub events_set-Later :
      (es : List ℕ) (net net' : Net)
      → Later net net'
      → events_set (state drv net) es ≡ true
      → events_set (state drv net') es ≡ true
  unfolding events_set Later
  events_set-Later [] net net' l h = refl
  events_set-Later (e ∷ es) net net' l h = ground (arith, events_set-Later es net net' l, l e)

  mutual
    unfolding done

    pub done-Later :
        (t : Tracker) (net net' : Net)
        → Later net net'
        → done (state drv net) t ≡ true
        → done (state drv net') t ≡ true
    done-Later (tracker i es ps) net net' l h =
        ground (arith, events_set-Later es net net' l, peers_done-Later ps net net' l)

    pub peers_done-Later :
        (ps : Peers) (net net' : Net)
        → Later net net'
        → peers_done (state drv net) ps ≡ true
        → peers_done (state drv net') ps ≡ true
    peers_done-Later no_peers net net' l h = refl
    peers_done-Later (add_peer p ps) net net' l h =
        ground (arith, done-Later p net net' l, peers_done-Later ps net net' l)

  pub done-Keeps :
      {A : Type 0} (t : Tracker) (m : Exec Net A)
      → ((e : ℕ) → Keeps (Stays e) m)
      → Keeps (λ net. done (state drv net) t ≡ true) m
  unfolding Later
  done-Keeps t m k = record { at = λ net h. done-Later t net (m net).1 (λ e s. (k e).at net s) h }

  pub events_set-Keeps :
      {A : Type 0} (es : List ℕ) (m : Exec Net A)
      → ((e : ℕ) → Keeps (Stays e) m)
      → Keeps (λ net. events_set (state drv net) es ≡ true) m
  unfolding Later
  events_set-Keeps es m k = record {
    at = λ net h. events_set-Later es net (m net).1 (λ e s. (k e).at net s) h;
  }
