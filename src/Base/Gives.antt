-- ===== src/Base/Gives.antt =====
-- Partial correctness of methods: from `P`, if the method returns, then `Q` holds of its result and
-- of the state that it leaves.
use mathlib.Core.Path.{◌≡◌, refl}
use mathlib.Core.Bool.{Bool, true, false}
use pyzmq.Base.Tests.{if◌then◌else◌}
use pyzmq.Base.Outcome.{Error, Result, ok, err}
use pyzmq.Base.Exec.{Exec, pure, raise, continue, ◌>>=◌, Keeps}
use pyzmq.Base.Post.{Post}

pub record Gives {S A : Type 0} (P : S → Type 0) (m : Exec S A) (Q : A → S → Type 0) : Type 0 where
  pub at : (s : S) → P s → Post Q (m s).0 (m s).1

module _ {S A B : Type 0} (R : A → S → Type 0) (Q : B → S → Type 0) where
  gives_continue :
      (r : Result A) (f : A → Exec S B) (s : S)
      → Post R r s
      → ((a : A) → Gives (R a) (f a) Q)
      → Post Q (continue r f s).0 (continue r f s).1
  gives_continue (ok a) f s h k = (k a).at s h
  gives_continue (err e) f s h k = tt

module _ {S A B : Type 0} {P : S → Type 0} (R : A → S → Type 0) {Q : B → S → Type 0} where
  pub Gives-bind :
      {m : Exec S A} {f : A → Exec S B}
      → Gives P m R
      → ((a : A) → Gives (R a) (f a) Q)
      → Gives P (m >>= f) Q
  Gives-bind {m} {f} h k = record { at = λ s p. gives_continue R Q (m s).0 f (m s).1 (h.at s p) k }

module _ {S A : Type 0} {P : S → Type 0} {Q : A → S → Type 0} where
  pub Gives-if :
      (b : Bool) {m n : Exec S A}
      → (b ≡ true → Gives P m Q)
      → (b ≡ false → Gives P n Q)
      → Gives P (if b then m else n) Q
  Gives-if true h k = h refl
  Gives-if false h k = k refl

  pub Gives-pure : (a : A) → ((s : S) → P s → Q a s) → Gives P (pure a) Q
  Gives-pure a h = record { at = h }

  pub Gives-raise : (e : Error) → Gives P (raise e) Q
  Gives-raise e = record { at = λ s p. tt }

module _ {S A B : Type 0} (P : S → Type 0) (R : A → S → Type 0) where
  kept_continue :
      (r : Result A) (f : A → Exec S B) (s : S)
      → P s
      → Post R r s
      → ((a : A) (t : S) → R a t → P (f a t).1)
      → P (continue r f s).1
  kept_continue (ok a) f s p h k = k a s h
  kept_continue (err e) f s p h k = p

  -- What follows a method may rely on what the method gives.
  pub Keeps-after :
      (m : Exec S A) (f : A → Exec S B)
      → Keeps P m
      → Gives P m R
      → ((a : A) (t : S) → R a t → P (f a t).1)
      → Keeps P (m >>= f)
  Keeps-after m f km gm k = record {
    at = λ s p. kept_continue (m s).0 f (m s).1 (km.at s p) (gm.at s p) k;
  }

module _ {S A : Type 0} (Q : A → S → Type 0) where
  both : (R : S → Type 0) (r : Result A) (s : S) → Post Q r s → R s → Post (λ a t. Q a t × R t) r s
  both R (ok a) s q h = (q, h)
  both R (err e) s q h = tt

  weaker :
      {Q' : A → S → Type 0}
      → ((a : A) (s : S) → Q a s → Q' a s)
      → (r : Result A) (s : S) → Post Q r s
      → Post Q' r s
  weaker q (ok a) s h = q a s h
  weaker q (err e) s h = tt

module _ {S A : Type 0} {P : S → Type 0} {Q : A → S → Type 0} where
  -- What a method keeps holds beside what it gives.
  pub Gives-Keeps :
      {m : Exec S A} (R : S → Type 0)
      → Gives P m Q
      → Keeps R m
      → Gives (λ s. P s × R s) m (λ a t. Q a t × R t)
  Gives-Keeps {m} R g k = record { at = λ s h. both Q R (m s).0 (m s).1 (g.at s h.0) (k.at s h.1) }

  pub Gives-weaken :
      {P' : S → Type 0} {Q' : A → S → Type 0} {m : Exec S A}
      → ((s : S) → P' s → P s)
      → ((a : A) (s : S) → Q a s → Q' a s)
      → Gives P m Q
      → Gives P' m Q'
  Gives-weaken {Q' = Q'} {m = m} p q g = record {
    at = λ s h. weaker Q {Q' = Q'} q (m s).0 (m s).1 (g.at s (p s h));
  }
