-- ===== src/Base/Leads.antt =====
-- Methods that lead from `P` to `Q`, whether they return or raise.
use mathlib.Core.Bool.{Bool, true, false}
use pyzmq.Base.Tests.{if◌then◌else◌}
use pyzmq.Base.Outcome.{Result, ok, err}
use pyzmq.Base.Exec.{Exec, continue, ◌>>=◌, Keeps, Keeps-bind}

pub record Leads {S A : Type 0} (P Q : S → Type 0) (m : Exec S A) : Type 0 where
  pub at : (s : S) → P s → Q (m s).1

module _ {S A : Type 0} {P Q : S → Type 0} where
  pub Leads-if :
      (b : Bool) (m n : Exec S A) → Leads P Q m → Leads P Q n → Leads P Q (if b then m else n)
  Leads-if true m n lm ln = lm
  Leads-if false m n lm ln = ln

module _ {S A B : Type 0} {P Q : S → Type 0} where
  leads_continue :
      (r : Result A) (f : A → Exec S B) (s : S)
      → P s
      → ((t : S) → P t → Q t)
      → ((a : A) → Leads P Q (f a))
      → Q (continue r f s).1
  leads_continue (ok a) f s p w k = (k a).at s p
  leads_continue (err e) f s p w k = w s p

  pub Leads-bind :
      (m : Exec S A) (f : A → Exec S B)
      → Keeps P m
      → ((t : S) → P t → Q t)
      → ((a : A) → Leads P Q (f a))
      → Leads P Q (m >>= f)
  Leads-bind m f km w k = record { at = λ s p. leads_continue (m s).0 f (m s).1 (km.at s p) w k }

  pub Leads-after :
      (m : Exec S A) (f : A → Exec S B)
      → Leads P Q m
      → ((a : A) → Keeps Q (f a))
      → Leads P Q (m >>= f)
  Leads-after m f lm k = record {
    at = λ s p.
        (Keeps-bind (λ t. (m s)) f (record { at = λ t q. lm.at s p }) k).at (m s).1 (lm.at s p);
  }
