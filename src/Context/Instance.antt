-- ===== src/Context/Instance.antt =====
-- The global context (`Context.instance`).
use pyzmq.Base.{ℕ, ◌≡◌, true, some, nat_eq, ◌⊎◌}
use pyzmq.Base.Dict
use pyzmq.Context.{Instances}

-- A context that a process may use: it is the current one, this process made it, and nobody closed it.
pub record IsUsable (pid c : ℕ) (s : Instances) : Type 0 where
  pub is_current : s.current ≡ some c
  pub made_here : s.instance_pid ≡ some pid
  pub is_open : ¬ (Dict.lookup c s.closed_flags ≡ some true)

-- What a call of `instance` does with the state `s`: if a context was usable, it is the answer and
-- nothing changes, and if none was, the answer is one that was not there before.
pub Outcome : ℕ → ℕ → Instances → Instances → Type 0
Outcome pid c s t =
    (IsUsable pid c s × (t ≡ s)) ⊎ (((d : ℕ) → ¬ IsUsable pid d s) × (c ≡ s.next_context))
