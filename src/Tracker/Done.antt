-- ===== src/Tracker/Done.antt =====
-- What it means that a tracker is done.
use pyzmq.Base.{
  ℕ, ◌≡◌, refl, sym, ap, ◌∙◌, Bool, true, false, ◌&&◌, none, some, List, [], ◌∷◌, ok, through,
  ok_injective, if◌then◌else◌, ◌==◌, ==_iff, arith, Bool-cases, inl, inr, All,
}
use mathlib.Core.Path.{subst}
use pyzmq.Tracker.{
  Tracker, tracker, Peers, no_peers, add_peer, Watched, event, message_tracker, frame, other,
  identity, has_event, add_event, has_peer, insert_peer, watch, watch_all, init, events_set, done,
  peers_done,
}

module _ (is_set : ℕ → Bool) where
  -- Whether 0MQ is done with one of the objects.
  pub watched_done : Watched → Bool
  watched_done (event e) = is_set e
  watched_done (message_tracker p) = done is_set p
  watched_done (frame (some p)) = done is_set p
  watched_done (frame none) = true
  watched_done other = true

  pub all_done : List Watched → Bool
  unfolding watched_done
  all_done [] = true
  all_done (o ∷ os) = watched_done o && all_done os

  done-tracker :
      (i : ℕ) (es : List ℕ) (ps : Peers)
      → done is_set (tracker i es ps) ≡ (events_set is_set es && peers_done is_set ps)
  unfolding done
  done-tracker i es ps = ground arith

  peers_done-add_peer :
      (p : Tracker) (ps : Peers)
      → peers_done is_set (add_peer p ps) ≡ (done is_set p && peers_done is_set ps)
  unfolding done
  peers_done-add_peer p ps = ground arith

  has_event-set :
      (e : ℕ) (es : List ℕ)
      → has_event e es ≡ true
      → events_set is_set es ≡ (is_set e && events_set is_set es)
  unfolding has_event events_set
  has_event-set e [] h = absurd (cc)
  has_event-set e (x ∷ es) h = ground (arith, has_event-set e es, ==_iff x e)

  add_event-set :
      (e : ℕ) (es : List ℕ)
      → events_set is_set (add_event e es) ≡ (is_set e && events_set is_set es)
  unfolding add_event events_set
  add_event-set e es = ground (arith, has_event-set e es)

-- The trackers that stand under their identity in a table.
module _ (heap : ℕ → Tracker) where
  abbrev pub IsKnown : Tracker → Type 0
  IsKnown p = heap (identity p) ≡ p

  abbrev pub IsKnownPeers : Peers → Type 0
  IsKnownPeers no_peers = Unit {0}
  IsKnownPeers (add_peer p ps) = IsKnown p × IsKnownPeers ps

  abbrev pub IsKnownWatched : Watched → Type 0
  IsKnownWatched (message_tracker p) = IsKnown p
  IsKnownWatched (frame (some p)) = IsKnown p
  IsKnownWatched _ = Unit {0}

module _ (is_set : ℕ → Bool) (heap : ℕ → Tracker) where
  has_peer-done :
      (i : ℕ) (ps : Peers)
      → IsKnownPeers heap ps
      → has_peer i ps ≡ true
      → peers_done is_set ps ≡ (done is_set (heap i) && peers_done is_set ps)
  unfolding has_peer
  has_peer-done i no_peers k h = absurd (cc)
  has_peer-done i (add_peer p ps) (k, ks) h = elim (Bool-cases (identity p == i)) [
    | inl e ↦
        let same : heap i ≡ p = ap heap (sym ((==_iff (identity p) i).0 e)) ∙ k in
        rw same (ground (arith, peers_done-add_peer is_set p ps))
    | inr e ↦ ground (arith, has_peer-done i ps ks, peers_done-add_peer is_set p ps)
  ]

  insert_peer-done :
      (p : Tracker) (ps : Peers)
      → IsKnown heap p
      → IsKnownPeers heap ps
      → peers_done is_set (insert_peer p ps) ≡ (done is_set p && peers_done is_set ps)
  unfolding insert_peer
  insert_peer-done p ps k ks =
      ground (arith, k, peers_done-add_peer is_set p ps, has_peer-done (identity p) ps ks)

  insert_peer-IsKnownPeers :
      (p : Tracker) (ps : Peers)
      → IsKnown heap p
      → IsKnownPeers heap ps
      → IsKnownPeers heap (insert_peer p ps)
  unfolding insert_peer
  insert_peer-IsKnownPeers p ps k ks = go (has_peer (identity p) ps)
    where
      go : (b : Bool) → IsKnownPeers heap (if b then ps else add_peer p ps)
      go true = ks
      go false = (k, ks)

  abbrev holds : List ℕ × Peers → Bool
  holds s = events_set is_set s.0 && peers_done is_set s.1

  nothing : holds ([], no_peers) ≡ true
  unfolding events_set done
  nothing = refl

  peer-done :
      (p : Tracker) (es : List ℕ) (ps : Peers)
      → IsKnown heap p
      → IsKnownPeers heap ps
      → (holds (es, insert_peer p ps) ≡ (done is_set p && holds (es, ps)))
        × IsKnownPeers heap (insert_peer p ps)
  peer-done p es ps k ks =
      (ground (arith, insert_peer-done p ps k ks), insert_peer-IsKnownPeers p ps k ks)

  watch-done :
      (o : Watched) (s s' : List ℕ × Peers)
      → IsKnownWatched heap o
      → IsKnownPeers heap s.1
      → watch o s ≡ ok s'
      → (holds s' ≡ (watched_done is_set o && holds s)) × IsKnownPeers heap s'.1
  unfolding watch watched_done
  watch-done (event e) (es, ps) s' k ks h =
      subst (λ t. (holds t ≡ (is_set e && holds (es, ps))) × IsKnownPeers heap t.1) (ok_injective h)
        (ground (arith, add_event-set is_set e es), ks)
  watch-done (message_tracker p) (es, ps) s' k ks h =
      subst (λ t. (holds t ≡ (done is_set p && holds (es, ps))) × IsKnownPeers heap t.1)
        (ok_injective h) (peer-done p es ps k ks)
  watch-done (frame none) s s' k ks h = absurd (cc)
  watch-done (frame (some p)) (es, ps) s' k ks h =
      subst (λ t. (holds t ≡ (done is_set p && holds (es, ps))) × IsKnownPeers heap t.1)
        (ok_injective h) (peer-done p es ps k ks)
  watch-done other s s' k ks h = absurd (cc)

  watch_all-done :
      (os : List Watched) (s s' : List ℕ × Peers)
      → All (IsKnownWatched heap) os
      → IsKnownPeers heap s.1
      → watch_all os s ≡ ok s'
      → holds s' ≡ (all_done is_set os && holds s)
  unfolding watch_all all_done
  watch_all-done [] s s' k ks h = ap holds (sym (ok_injective h))
  watch_all-done (o ∷ os) s s' (k, k') ks h =
      let (s₁, e, rest) = through (watch_all os) (watch o s) h in
      let (now, ks') = watch-done o s s₁ k ks e in
      ground (arith, watch_all-done os s₁ s' k' ks' rest, now)

  -- A tracker that was made from a list of objects is done exactly when 0MQ is done with each of the
  -- objects, an object that occurs twice included, if trackers with one identity are one tracker.
  pub init-done :
      (i : ℕ) (os : List Watched) (t : Tracker)
      → All (IsKnownWatched heap) os
      → init i os ≡ ok t
      → done is_set t ≡ all_done is_set os
  unfolding init
  init-done i os t k h =
      let (s, e, made) = through (λ s. ok (tracker i s.0 s.1)) (watch_all os ([], no_peers)) h in
      ap (done is_set) (sym (ok_injective made))
      ∙ done-tracker is_set i s.0 s.1
      ∙ watch_all-done os ([], no_peers) s k tt e
      ∙ ground (arith, nothing)
