-- ===== src/Base/Post.antt =====
-- Postconditions of methods: what holds of the result and the state, if nothing was raised.
use mathlib.Core.Path.{◌≡◌, refl, subst}
use mathlib.Core.Bool.{Bool, true, false}
use mathlib.Core.Option.{Option, none, some}
use pyzmq.Base.Tests.{if◌then◌else◌}
use pyzmq.Base.Outcome.{Result, ok, err, ok_injective}
use pyzmq.Base.Exec.{Exec, continue}

abbrev pub Post : {S A : Type 0} → (A → S → Type 0) → Result A → S → Type 0
Post Q (ok a) s = Q a s
Post Q (err e) s = Unit {0}

module _ {S A B : Type 0} (Q : B → S → Type 0) (R : A → S → Type 0) where
  pub Post-continue :
      (r : Result A) (f : A → Exec S B) (s : S)
      → Post R r s
      → ((a : A) → R a s → Post Q (f a s).0 (f a s).1)
      → Post Q (continue r f s).0 (continue r f s).1
  Post-continue (ok a) f s h k = k a h
  Post-continue (err e) f s h k = tt

module _ {S A : Type 0} (Q : A → S → Type 0) where
  pub Post-if :
      (b : Bool) (x y : Result A × S)
      → (b ≡ true → Post Q x.0 x.1)
      → (b ≡ false → Post Q y.0 y.1)
      → Post Q (if b then x else y).0 (if b then x else y).1
  Post-if true x y h k = h refl
  Post-if false x y h k = k refl

  pub Post-option :
      {B : Type 0} (o : Option B) (x : Result A × S) (f : B → Result A × S)
      → (o ≡ none → Post Q x.0 x.1)
      → ((b : B) → o ≡ some b → Post Q (f b).0 (f b).1)
      → Post Q
          (elim o as (λ _. Result A × S) [ none ↦ x | some b ↦ f b ]).0
          (elim o as (λ _. Result A × S) [ none ↦ x | some b ↦ f b ]).1
  Post-option none x f h k = h refl
  Post-option (some b) x f h k = k b refl

pub post_ok :
    {S A : Type 0} (Q : A → S → Type 0) (r : Result A) (s : S) (a : A)
    → Post Q r s
    → r ≡ ok a
    → Q a s
post_ok Q (ok b) s a h e = subst (λ x. Q x s) (ok_injective e) h
post_ok Q (err x) s a h e = absurd (cc)

pub always : {S A : Type 0} (r : Result A) (s : S) → Post (λ _ _. Unit {0}) r s
always (ok a) s = tt
always (err e) s = tt
