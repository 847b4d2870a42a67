-- ===== src/Select/Ready.antt =====
-- `select` answers sockets of the lists that it was given.
use pyzmq.Base.{
  ℕ, ◌≡◌, ◌⊎◌, inl, inr, refl, sym, ap, ◌∙◌, Bool, true, false, Option, List, [], ◌∷◌, ◌++◌, Result,
  ok, err, All, if◌then◌else◌, arith, ok_injective,
}
use mathlib.Core.Path.{subst}
use pyzmq.Base.Int.{ℤ}
use pyzmq.Base.Mask.{Mask}
use pyzmq.Select.{
  ZmqPoll, contains, flags_of, asked_for, with_event, split_ready, select_timeout, select,
}

-- A socket was asked about with some events.
unfoldable pub IsAsked : ℕ → Mask → List (ℕ × Mask) → Type 0
IsAsked s m [] = ⊥
IsAsked s m ((t, n) ∷ items) = ((t ≡ s) × (n ≡ m)) ⊎ IsAsked s m items

-- What libzmq documents: only what was asked about is reported, with no events but those asked for.
abbrev pub IsAnswer : List (ℕ × Mask) → ℕ × Mask → Type 0
IsAnswer items (s, m) =
    (n : Mask) × IsAsked s n items
    × (m.pollin ≡ true → n.pollin ≡ true)
    × (m.pollout ≡ true → n.pollout ≡ true)
    × (m.pollerr ≡ true → n.pollerr ≡ true)

asked_for-flags_of :
    (r w x ss : List ℕ) (s : ℕ) (m : Mask) → IsAsked s m (asked_for r w x ss) → m ≡ flags_of r w x s
unfolding IsAsked asked_for
asked_for-flags_of r w x [] s m h = absurd h
asked_for-flags_of r w x (t ∷ ss) s m (inl (same, e)) = sym e ∙ ap (flags_of r w x) same
asked_for-flags_of r w x (t ∷ ss) s m (inr h) = asked_for-flags_of r w x ss s m h

module _ (r w x : List ℕ) (s : ℕ) where
  flags_of-pollin : (flags_of r w x s).pollin ≡ contains s r
  unfolding flags_of
  flags_of-pollin = ground arith

  flags_of-pollout : (flags_of r w x s).pollout ≡ contains s w
  unfolding flags_of
  flags_of-pollout = ground arith

  flags_of-pollerr : (flags_of r w x s).pollerr ≡ contains s x
  unfolding flags_of
  flags_of-pollerr = ground arith

All-if :
    (P : ℕ → Type 0) (b : Bool) (s : ℕ) (rest : List ℕ)
    → (b ≡ true → P s)
    → All P rest
    → All P (if b then s ∷ rest else rest)
All-if P true s rest h k = (h refl, k)
All-if P false s rest h k = k

module _ (event : Mask → Bool) (xs : List ℕ) where
  with_event-contains :
      (rs : List (ℕ × Mask))
      → All (λ p. event p.1 ≡ true → contains p.0 xs ≡ true) rs
      → All (λ s. contains s xs ≡ true) (with_event event rs)
  unfolding with_event
  with_event-contains [] h = tt
  with_event-contains ((s, m) ∷ rs) (h, hs) =
      All-if (λ s. contains s xs ≡ true) (event m) s (with_event event rs) h
        (with_event-contains rs hs)

All-map :
    (P Q : ℕ × Mask → Type 0) (rs : List (ℕ × Mask))
    → ((p : ℕ × Mask) → P p → Q p)
    → All P rs
    → All Q rs
All-map P Q [] f h = tt
All-map P Q (p ∷ rs) f (h, hs) = (f p h, All-map P Q rs f hs)

module _ (r w x ss : List ℕ) where
  answer-pollin :
      (p : ℕ × Mask) → IsAnswer (asked_for r w x ss) p → p.1.pollin ≡ true → contains p.0 r ≡ true
  answer-pollin (s, m) (n, asked, i, o, e) h =
      sym (
        ap (λ (m : Mask). m.pollin) (asked_for-flags_of r w x ss s n asked)
        ∙ flags_of-pollin r w x s)
      ∙ i h

  answer-pollout :
      (p : ℕ × Mask) → IsAnswer (asked_for r w x ss) p → p.1.pollout ≡ true → contains p.0 w ≡ true
  answer-pollout (s, m) (n, asked, i, o, e) h =
      sym (
        ap (λ (m : Mask). m.pollout) (asked_for-flags_of r w x ss s n asked)
        ∙ flags_of-pollout r w x s)
      ∙ o h

  answer-pollerr :
      (p : ℕ × Mask) → IsAnswer (asked_for r w x ss) p → p.1.pollerr ≡ true → contains p.0 x ≡ true
  answer-pollerr (s, m) (n, asked, i, o, e) h =
      sym (
        ap (λ (m : Mask). m.pollerr) (asked_for-flags_of r w x ss s n asked)
        ∙ flags_of-pollerr r w x s)
      ∙ e h

split_contains :
    (r w x ss : List ℕ) (answer : Result (List (ℕ × Mask))) (ready : List ℕ × List ℕ × List ℕ)
    → ((rs : List (ℕ × Mask)) → answer ≡ ok rs → All (IsAnswer (asked_for r w x ss)) rs)
    → split_ready answer ≡ ok ready
    → All (λ s. contains s r ≡ true) ready.0
      × All (λ s. contains s w ≡ true) ready.1
      × All (λ s. contains s x ≡ true) ready.2
unfolding split_ready
split_contains r w x ss (err e) ready honest h = absurd (cc)
split_contains r w x ss (ok rs) ready honest h =
    let answers = honest rs refl in
    subst
      (λ (ready : List ℕ × List ℕ × List ℕ).
        All (λ s. contains s r ≡ true) ready.0
        × All (λ s. contains s w ≡ true) ready.1
        × All (λ s. contains s x ≡ true) ready.2)
      (ok_injective h)
      (
        with_event-contains (λ flags. flags.pollin) r rs
            (All-map _ _ rs (answer-pollin r w x ss) answers),
        with_event-contains (λ flags. flags.pollout) w rs
            (All-map _ _ rs (answer-pollout r w x ss) answers),
        with_event-contains (λ flags. flags.pollerr) x rs
            (All-map _ _ rs (answer-pollerr r w x ss) answers),
      )

-- If `zmq_poll` reports only what was asked for, then `select` answers readable sockets from the first
-- list, writable ones from the second and failing ones from the third, in whatever order the set of all
-- of them is gone through.
pub select-contains :
    {Net : Type 0} (zmq_poll : ZmqPoll Mask Net) (as_set : List ℕ → List ℕ) (to_ms : ℕ → ℤ)
    → ((items : List (ℕ × Mask)) (t : ℤ) (net : Net) (rs : List (ℕ × Mask))
        → (zmq_poll items t net).0 ≡ ok rs
        → All (IsAnswer items) rs)
    → (r w x : List ℕ) (timeout : Option ℕ) (net : Net) (ready : List ℕ × List ℕ × List ℕ)
    → (select zmq_poll as_set to_ms r w x timeout net).0 ≡ ok ready
    → All (λ s. contains s r ≡ true) ready.0
      × All (λ s. contains s w ≡ true) ready.1
      × All (λ s. contains s x ≡ true) ready.2
unfolding select
select-contains zmq_poll as_set to_ms honest r w x timeout net ready h =
    let ss = as_set (r ++ w ++ x) in
    split_contains r w x ss (zmq_poll (asked_for r w x ss) (select_timeout to_ms timeout) net).0
      ready (λ rs e. honest (asked_for r w x ss) (select_timeout to_ms timeout) net rs e) h
