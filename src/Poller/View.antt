-- ===== src/Poller/View.antt =====
-- `Poller` as a finite map from sockets to flags, which is what `zmq_poll` is handed.
use pyzmq.Base.{
  ℕ, zero, suc, ◌≡◌, refl, inl, inr, true, false, Option, none, some, List, [], ◌∷◌, ◌++◌, Result,
  ok, ap, if◌then◌else◌, ◌==◌, ==_iff, nat_eq, lt→ltb, set, length, erase_idx, arith, Bool-cases,
  Option-cases,
}
use pyzmq.Base.Dict
use pyzmq.Poller.{Poller, unregister, register_flags, register, contains}
use pyzmq.Poller.Shift.{index_of, listed, IsDistinct, index_of-tail}
use pyzmq.Poller.Invariant.{IsValid, unregister_found, register_new, register_old, index_of-lt}

-- The flags under which a socket is registered.
unfoldable pub flags_of : ℕ → Poller → Option ℕ
flags_of t p = Dict.lookup t p.sockets

lookup-append :
    (s t f : ℕ) (xs : List (ℕ × ℕ))
    → index_of s xs ≡ none
    → Dict.lookup t (xs ++ ((s, f) ∷ [])) ≡ (if s == t then some f else Dict.lookup t xs)
unfolding index_of Dict.lookup
lookup-append s t f [] h = refl
lookup-append s t f ((j, g) ∷ r) h =
    ground (arith, lookup-append s t f r, ==_iff j s, ==_iff s t, ==_iff j t)

lookup-set :
    (s t f i : ℕ) (xs : List (ℕ × ℕ))
    → index_of s xs ≡ some i
    → Dict.lookup t (set xs i (s, f)) ≡ (if s == t then some f else Dict.lookup t xs)
unfolding index_of Dict.lookup
lookup-set s t f i [] h = absurd (ground arith)
lookup-set s t f zero ((j, g) ∷ r) h = ground (arith, ==_iff j s, ==_iff s t, ==_iff j t)
lookup-set s t f (suc i) ((j, g) ∷ r) h =
    ground
      (arith, lookup-set s t f i r (index_of-tail s j g i r h), ==_iff j s, ==_iff s t, ==_iff j t)

lookup-unlisted : (t : ℕ) (xs : List (ℕ × ℕ)) → listed t xs ≡ false → Dict.lookup t xs ≡ none
unfolding index_of Dict.lookup
lookup-unlisted t [] h = refl
lookup-unlisted t ((j, g) ∷ r) h = ground (arith, lookup-unlisted t r)

lookup-listed : (t : ℕ) (xs : List (ℕ × ℕ)) → Dict.has t xs ≡ listed t xs
unfolding index_of Dict.lookup
lookup-listed t [] = refl
lookup-listed t ((j, g) ∷ r) = ground (arith, lookup-listed t r)

lookup-erase :
    (s t i : ℕ) (xs : List (ℕ × ℕ))
    → IsDistinct xs
    → index_of s xs ≡ some i
    → Dict.lookup t (erase_idx xs i) ≡ (if s == t then none else Dict.lookup t xs)
unfolding index_of Dict.lookup
lookup-erase s t i [] d h = absurd (ground arith)
lookup-erase s t zero ((j, g) ∷ r) d h =
    ground (arith, lookup-unlisted t r, ==_iff j s, ==_iff s t, ==_iff j t)
lookup-erase s t (suc i) ((j, g) ∷ r) d h = ground (
  arith,
  lookup-erase s t i r d.1 (index_of-tail s j g i r h),
  ==_iff j s,
  ==_iff s t,
  ==_iff j t,
)

-- On a valid poller `socket in poller` tells whether the socket has flags.
pub contains-flags_of :
    (s : ℕ) (p : Poller)
    → IsValid p
    → contains s p ≡ (elim (flags_of s p) [ none ↦ false | some f ↦ true ])
unfolding contains flags_of
contains-flags_of s p v = ground (arith, v.indexed s, lookup-listed s p.sockets)

-- `unregister` of a registered socket ends without an error, keeps the poller valid, and takes
-- away the flags of that socket and of no other.
pub unregister_registered :
    (s : ℕ) (p : Poller)
    → IsValid p
    → contains s p ≡ true
    → let (r, q) = unregister s p in
      (r ≡ ok tt) × IsValid q × ((t : ℕ) → flags_of t q ≡ (if s == t then none else flags_of t p))
unfolding contains flags_of
unregister_registered s p v h = elim (Option-cases (index_of s p.sockets)) [
  | inl e ↦ absurd (ground (arith, v.indexed s))
  | inr (i, e) ↦
      let (done, left, valid) = unregister_found s i p v e in
      (done, valid, λ t. rw left (lookup-erase s t i p.sockets v.distinct e))
]

-- What a call leaves behind: no error, a valid poller, and the flags that `g` tells.
abbrev Leaves : Result (Unit {0}) × Poller → (ℕ → Option ℕ) → Type 0
Leaves (r, q) g = (r ≡ ok tt) × IsValid q × ((t : ℕ) → flags_of t q ≡ g t)

register_none :
    (s : ℕ) (p : Poller)
    → IsValid p
    → Leaves
        (if contains s p then unregister s p else (ok tt, p))
        (λ t. if s == t then none else flags_of t p)
register_none s p v = elim (Bool-cases (contains s p)) [
  | inl c ↦ rw c (unregister_registered s p v c)
  | inr c ↦ rw c (
    refl,
    v,
    λ t.
        ground (
          arith,
          contains-flags_of s p v,
          ==_iff s t,
          ap (λ (x : ℕ). flags_of x p) {x = s} {y = t},
        ),
  )
]

register_some :
    (s f : ℕ) (p : Poller)
    → IsValid p
    → Leaves (register_flags s f p) (λ t. if s == t then some f else flags_of t p)
unfolding register_flags flags_of
register_some s f p v = elim (Option-cases (index_of s p.sockets)) [
  | inl e ↦
      rw (v.indexed s, e, register_flags)
        (refl, register_new s f p v e, λ t. lookup-append s t f p.sockets e)
  | inr (i, e) ↦
      rw (v.indexed s, e, register_flags)
        (rw (lt→ltb i (length p.sockets) (index_of-lt s i p.sockets e))
          (refl, register_old s f p v i e, λ t. lookup-set s t f i p.sockets e))
]

-- From a valid poller, `register` ends without an error whatever the flags, keeps the poller
-- valid, and changes the flags of the given socket only: they become the given ones, or go away
-- when these are 0.
pub register-flags_of :
    (s f : ℕ) (p : Poller)
    → IsValid p
    → let (r, q) = register s f p in
      (r ≡ ok tt)
      × IsValid q
      × ((t : ℕ)
          → flags_of t q ≡ (if s == t then (if f == 0 then none else some f) else flags_of t p))
unfolding register
register-flags_of s f p v = elim (Bool-cases (f == 0)) [
  | inl z ↦ rw z (register_none s p v)
  | inr z ↦ rw z (register_some s f p v)
]
