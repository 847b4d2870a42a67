-- ===== src/Poller/Runs.antt =====
-- Any sequence of calls on a `Poller` against the map that the calls describe.
use pyzmq.Base.{
  ℕ, ◌≡◌, refl, none, some, Option, List, [], ◌∷◌, inl, inr, if◌then◌else◌, ◌==◌, ==_iff, arith,
  Bool-cases, nat_eq, ap, ◌∙◌,
}
use pyzmq.Base.Dict
use pyzmq.Poller.{Poller, init, unregister, register, modify, contains}
use pyzmq.Poller.Invariant.{IsValid, init-IsValid, unregister_missing}
use pyzmq.Poller.View.{flags_of, contains-flags_of, unregister_registered, register-flags_of}

pub data Call : Type 0 where
  registers modifies : ℕ → ℕ → Call
  unregisters : ℕ → Call

-- A caller that catches the `KeyError` goes on with the object as it stands.
unfoldable pub step : Poller → Call → Poller
step p (registers s f) = (register s f p).1
step p (modifies s f) = (modify s f p).1
step p (unregisters s) = (unregister s p).1

unfoldable pub run : Poller → List Call → Poller
run p [] = p
run p (c ∷ cs) = run (step p c) cs

-- The map that the calls describe.
abbrev pub assign : ℕ → ℕ → (ℕ → Option ℕ) → ℕ → Option ℕ
assign s f g t = if s == t then (if f == 0 then none else some f) else g t

abbrev pub told : (ℕ → Option ℕ) → Call → ℕ → Option ℕ
told g (registers s f) t = assign s f g t
told g (modifies s f) t = assign s f g t
told g (unregisters s) t = if s == t then none else g t

unfoldable pub told_all : (ℕ → Option ℕ) → List Call → ℕ → Option ℕ
told_all g [] = g
told_all g (c ∷ cs) = told_all (told g c) cs

unregister_any :
    (s : ℕ) (p : Poller)
    → IsValid p
    → IsValid (unregister s p).1
      × ((t : ℕ) → flags_of t (unregister s p).1 ≡ (if s == t then none else flags_of t p))
unregister_any s p v = elim (Bool-cases (contains s p)) [
  | inl c ↦ let (done, valid, view) = unregister_registered s p v c in (valid, view)
  | inr c ↦ rw (unregister_missing s p v c) (
    v,
    λ t.
        ground (
          arith,
          contains-flags_of s p v,
          ==_iff s t,
          ap (λ (x : ℕ). flags_of x p) {x = s} {y = t},
        ),
  )
]

step_lem :
    (p : Poller) (c : Call)
    → IsValid p
    → IsValid (step p c) × ((t : ℕ) → flags_of t (step p c) ≡ told (λ x. flags_of x p) c t)
unfolding step modify
step_lem p (registers s f) v = let (done, valid, view) = register-flags_of s f p v in (valid, view)
step_lem p (modifies s f) v = let (done, valid, view) = register-flags_of s f p v in (valid, view)
step_lem p (unregisters s) v = unregister_any s p v

told_same :
    (f g : ℕ → Option ℕ) (c : Call) (t : ℕ) → ((x : ℕ) → f x ≡ g x) → told f c t ≡ told g c t
told_same f g (registers s k) t h = rw (h t)
told_same f g (modifies s k) t h = rw (h t)
told_same f g (unregisters s) t h = rw (h t)

run_from :
    (cs : List Call) (p : Poller) (g : ℕ → Option ℕ)
    → IsValid p
    → ((t : ℕ) → flags_of t p ≡ g t)
    → IsValid (run p cs) × ((t : ℕ) → flags_of t (run p cs) ≡ told_all g cs t)
unfolding run told_all
run_from [] p g v h = (v, h)
run_from (c ∷ cs) p g v h =
    let (valid, view) = step_lem p c v in
    run_from cs (step p c) (told g c) valid (λ t. view t ∙ told_same (λ x. flags_of x p) g c t h)

-- After any sequence of `register`, `modify` and `unregister` calls on a new poller, failing calls
-- included, the invariant holds and each socket has exactly the flags that the calls describe.
pub run-told_all :
    (cs : List Call)
    → IsValid (run init cs) × ((t : ℕ) → flags_of t (run init cs) ≡ told_all (λ x. none) cs t)
unfolding init flags_of Dict.lookup
run-told_all cs = run_from cs init (λ x. none) init-IsValid (λ t. refl)
