-- ===== src/Tracker/Wait/Returns.antt =====
-- A tracker that was waited for is done.
use pyzmq.Base.{ℕ, ◌≡◌, refl, ◌∙◌, Bool, true, Option, some, List, [], ◌∷◌, ok, not_done, arith}
use pyzmq.Base.Exec.{Exec, Keeps}
use pyzmq.Base.Gives.{
  Gives, Gives-bind, Gives-if, Gives-pure, Gives-raise, Gives-Keeps, Gives-weaken,
}
use pyzmq.Base.Post.{post_ok}
use pyzmq.Base.Int.{ℤ, is_negative, less_elapsed}
use pyzmq.Tracker.{Tracker, tracker, Peers, no_peers, add_peer, events_set, done, peers_done}
use pyzmq.Tracker.Wait.{
  state, Driver, remaining_of, now, in_time, if_set, timed, wait_event, wait_events, wait,
  wait_peers, IsLasting,
}
use pyzmq.Tracker.Wait.Keeping.{
  Stays, now-Keeps, wait_events-Keeps, wait_peers-Keeps, done-Keeps, events_set-Keeps,
}

module _ {Net : Type 0} (drv : Driver Net) (lasting : IsLasting drv) where
  module _ {A : Type 0} {P : Net → Type 0} {Q : A → Net → Type 0} where
    in_time-Gives : (r : ℤ) {m : Exec Net A} → Gives P m Q → Gives P (in_time drv r m) Q
    unfolding in_time
    in_time-Gives r g = Gives-if (is_negative r) (λ _. Gives-raise not_done) (λ _. g)

    if_set-Gives :
        (b : Bool) {m : Exec Net A} → (b ≡ true → Gives P m Q) → Gives P (if_set drv b m) Q
    unfolding if_set
    if_set-Gives b g = Gives-if b g (λ _. Gives-raise not_done)

    timed-Gives :
        (r : ℤ) (tic : ℕ) {rest : ℤ → ℕ → Exec Net A}
        → Keeps P (now drv)
        → ((r : ℤ) (tic : ℕ) → Gives P (rest r tic) Q)
        → Gives P (timed drv r tic rest) Q
    unfolding timed
    timed-Gives r tic k g =
        Gives-bind (λ _. P) {m = now drv} (record { at = λ net h. k.at net h })
          (λ toc. g (less_elapsed r tic toc) toc)

  Nothing : Net → Type 0
  Nothing net = Unit {0}

  wait_event-Gives :
      (e : ℕ) (r : ℤ) → Gives Nothing (wait_event drv e r) (λ set net. state drv net e ≡ set)
  unfolding wait_event
  wait_event-Gives e r = record { at = λ net h. refl }

  all_set : List ℕ → Net → Bool
  all_set es net = events_set (state drv net) es

  wait_events-Gives :
      (es : List ℕ) (r : ℤ) (tic : ℕ)
      → Gives Nothing (wait_events drv es r tic) (λ _ net. all_set es net ≡ true)
  unfolding wait_events events_set all_set Nothing
  wait_events-Gives [] r tic = Gives-pure (r, tic) (λ _ _. refl)
  wait_events-Gives (e ∷ es) r tic = in_time-Gives r (
      Gives-bind (λ set net. state drv net e ≡ set) (wait_event-Gives e r)
        (λ set. if_set-Gives set {m = timed drv r tic (wait_events drv es)} (λ yes.
          Gives-weaken (λ net h. h ∙ yes) (λ _ _ h. h)
            (timed-Gives r tic (now-Keeps drv lasting e) (λ r tic.
              Gives-weaken (λ net h. (tt, h)) (λ p net h. ground (arith, h.0, h.1))
                (Gives-Keeps (Stays drv lasting e) (wait_events-Gives es r tic)
                  (wait_events-Keeps drv lasting e es r tic)))))))

  mutual
    unfolding wait done all_set Nothing

    wait-Gives :
        (t : Tracker) (timeout : Option ℤ)
        → Gives Nothing (wait drv t timeout) (λ _ net. done (state drv net) t ≡ true)
    wait-Gives (tracker i es ps) timeout =
        Gives-bind (λ _. Nothing) {m = now drv} (record { at = λ net h. tt })
          (λ tic.
            Gives-bind (λ _ net. all_set es net ≡ true)
              {m = wait_events drv es (remaining_of drv timeout) tic} (wait_events-Gives es _ tic)
              (λ p.
                Gives-weaken (λ net h. (tt, h)) (λ _ net h. ground (arith, h.0, h.1))
                  (Gives-Keeps (λ net. all_set es net ≡ true) (wait_peers-Gives ps p.0 p.1)
                    (events_set-Keeps drv lasting es _
                      (λ e. wait_peers-Keeps drv lasting e ps p.0 p.1)))))

    wait_peers-Gives :
        (ps : Peers) (r : ℤ) (tic : ℕ)
        → Gives Nothing (wait_peers drv ps r tic) (λ _ net. peers_done (state drv net) ps ≡ true)
    wait_peers-Gives no_peers r tic = Gives-pure tt (λ _ _. refl)
    wait_peers-Gives (add_peer p ps) r tic = in_time-Gives r (
        Gives-bind (λ _ net. done (state drv net) p ≡ true) {m = wait drv p (some r)}
          (wait-Gives p (some r))
          (λ _.
            timed-Gives r tic (done-Keeps drv lasting p (now drv) (λ e. now-Keeps drv lasting e))
              (λ r tic.
                Gives-weaken (λ net h. (tt, h)) (λ _ net h. ground (arith, h.0, h.1))
                  (Gives-Keeps (λ net. done (state drv net) p ≡ true) (wait_peers-Gives ps r tic)
                    (done-Keeps drv lasting p _ (λ e. wait_peers-Keeps drv lasting e ps r tic))))))

  -- If `wait` returns, whatever its timeout, then 0MQ is done with the tracker when it does: every event
  -- of the tracker and of its peers, at any depth, is set. Otherwise `wait` raises.
  pub wait-done :
      (t : Tracker) (timeout : Option ℤ) (net : Net)
      → (wait drv t timeout net).0 ≡ ok tt
      → done (state drv (wait drv t timeout net).1) t ≡ true
  unfolding Nothing
  wait-done t timeout net h =
      post_ok (λ _ net. done (state drv net) t ≡ true) (wait drv t timeout net).0
        (wait drv t timeout net).1 tt ((wait-Gives t timeout).at net tt) h
