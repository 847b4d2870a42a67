-- ===== src/Base/Exec.antt =====
-- Methods that mutate an object and may raise: what was written before a raise stays written.
use mathlib.Core.Path.{◌≡◌, refl, ap}
use mathlib.Core.Bool.{Bool, true, false}
use mathlib.Core.Option.{Option, none, some}
use pyzmq.Base.Tests.{if◌then◌else◌}
use pyzmq.Base.Outcome.{Error, Result, ok, err}

abbrev pub Exec : Type 0 → Type 0 → Type 0
Exec S A = S → Result A × S

module _ {S A : Type 0} where
  abbrev pub pure : A → Exec S A
  pure a s = (ok a, s)

  abbrev pub raise : Error → Exec S A
  raise e s = (err e, s)

  abbrev pub gets : (S → A) → Exec S A
  gets f s = (ok (f s), s)

abbrev pub modify : {S : Type 0} → (S → S) → Exec S (Unit {0})
modify f s = (ok tt, f s)

module _ {S A B : Type 0} where
  abbrev pub continue : Result A → (A → Exec S B) → Exec S B
  continue (ok a) f s = f a s
  continue (err e) f s = (err e, s)

  infixl 5 ◌>>=◌ ◌>>◌
  abbrev pub ◌>>=◌ : Exec S A → (A → Exec S B) → Exec S B
  ◌>>=◌ m f s = continue (m s).0 f (m s).1

  abbrev pub ◌>>◌ : Exec S A → Exec S B → Exec S B
  ◌>>◌ m k s = continue (m s).0 (λ _. k) (m s).1

-- A step that returned is followed by the rest.
pub continue-ok :
    {S A B : Type 0} (r : Result A) (f : A → Exec S B) (s : S) (a : A)
    → r ≡ ok a
    → continue r f s ≡ f a s
continue-ok r f s a h = rw h refl

-- The same where the step's result and state are known.
pub bind-ok :
    {S A B : Type 0} (m : Exec S A) (f : A → Exec S B) (s s' : S) (a : A)
    → m s ≡ (ok a, s')
    → (m >>= f) s ≡ f a s'
bind-ok {S} {A} m f s s' a h = ap (λ (r : Result A × S). continue r.0 f r.1) h

-- `try: m` with the exception as a value
abbrev pub attempt : {S A : Type 0} → Exec S A → Exec S (Result A)
attempt m s = (ok (m s).0, (m s).1)

-- `if b: m`
abbrev pub when : {S : Type 0} → Bool → Exec S (Unit {0}) → Exec S (Unit {0})
when b m = if b then m else pure tt

-- `m` keeps `P`, whether it returns or raises.
pub record Keeps {S A : Type 0} (P : S → Type 0) (m : Exec S A) : Type 0 where
  pub at : (s : S) → P s → P (m s).1

module _ {S A : Type 0} {P : S → Type 0} where
  pub Keeps-pure : (a : A) → Keeps P (pure {S = S} a)
  Keeps-pure a = record { at = λ s h. h }

  pub Keeps-raise : (e : Error) → Keeps P (raise {S = S} {A = A} e)
  Keeps-raise e = record { at = λ s h. h }

  pub Keeps-gets : (f : S → A) → Keeps P (gets f)
  Keeps-gets f = record { at = λ s h. h }

  pub Keeps-if : (b : Bool) (m n : Exec S A) → Keeps P m → Keeps P n → Keeps P (if b then m else n)
  Keeps-if true m n km kn = km
  Keeps-if false m n km kn = kn

module _ {S A B : Type 0} {P : S → Type 0} where
  Keeps-continue :
      (r : Result A) (f : A → Exec S B) → ((a : A) → Keeps P (f a)) → Keeps P (continue r f)
  Keeps-continue (ok a) f k = record { at = λ s h. (k a).at s h }
  Keeps-continue (err e) f k = record { at = λ s h. h }

  pub Keeps-bind :
      (m : Exec S A) (f : A → Exec S B) → Keeps P m → ((a : A) → Keeps P (f a)) → Keeps P (m >>= f)
  Keeps-bind m f km kf = record { at = λ s h. (Keeps-continue (m s).0 f kf).at (m s).1 (km.at s h) }

  pub Keeps-then : (m : Exec S A) (k : Exec S B) → Keeps P m → Keeps P k → Keeps P (m >> k)
  Keeps-then m k km kk = record {
    at = λ s h. (Keeps-continue (m s).0 (λ _. k) (λ _. kk)).at (m s).1 (km.at s h);
  }

pub ruleset keeps_rules = (Keeps-pure, Keeps-raise, Keeps-gets, Keeps-if, Keeps-bind, Keeps-then)

-- The state after a branch, with the test's equation at hand.
module _ {S A : Type 0} (P : S → Type 0) where
  pub kept-if :
      (b : Bool) (x y : Result A × S)
      → (b ≡ true → P x.1)
      → (b ≡ false → P y.1)
      → P (if b then x else y).1
  kept-if true x y h k = h refl
  kept-if false x y h k = k refl

module _ {S A B : Type 0} (P : S → Type 0) where
  pub kept-option :
      (o : Option B) (x : Result A × S) (f : B → Result A × S)
      → (o ≡ none → P x.1)
      → ((b : B) → o ≡ some b → P (f b).1)
      → P (elim o as (λ _. Result A × S) [ none ↦ x | some b ↦ f b ]).1
  kept-option none x f h k = h refl
  kept-option (some b) x f h k = k b refl
