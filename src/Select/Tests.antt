-- ===== src/Select/Tests.antt =====
-- A `zmq_poll` that finds every socket ready for what was asked.
use pyzmq.Base.{ℕ, ◌≡◌, refl, true, List, [], ◌∷◌, ok, none, All, ok_injective, inl, inr}
use mathlib.Core.Path.{subst}
use pyzmq.Base.Int.{ℤ, pos}
use pyzmq.Base.Mask.{Mask}
use pyzmq.Select.{
  ZmqPoll, contains, flags_of, asked_for, with_event, split_ready, select_timeout, select,
}
use pyzmq.Select.Ready.{IsAsked, IsAnswer, select-contains}

abbrev all_ready : ZmqPoll Mask (Unit {0})
all_ready items timeout net = (ok items, net)

later :
    (p : ℕ × Mask) (items more : List (ℕ × Mask))
    → All (IsAnswer items) more
    → All (IsAnswer (p ∷ items)) more
unfolding IsAsked
later p items [] h = tt
later p items (q ∷ more) ((n, asked, i, o, e), hs) =
    ((n, inr asked, i, o, e), later p items more hs)

items-IsAnswer : (items : List (ℕ × Mask)) → All (IsAnswer items) items
unfolding IsAsked
items-IsAnswer [] = tt
items-IsAnswer ((s, m) ∷ items) = (
  (m, inl (refl, refl), (λ h. h), (λ h. h), λ h. h),
  later (s, m) items items (items-IsAnswer items),
)

all_ready-IsAnswer :
    (items : List (ℕ × Mask)) (t : ℤ) (net : Unit {0}) (rs : List (ℕ × Mask))
    → (all_ready items t net).0 ≡ ok rs
    → All (IsAnswer items) rs
all_ready-IsAnswer items t net rs h =
    subst (λ rs. All (IsAnswer items) rs) (ok_injective h) (items-IsAnswer items)

abbrev sockets_in_order : List ℕ → List ℕ
sockets_in_order ss = 1 ∷ 2 ∷ []

selected :
    (select all_ready sockets_in_order (λ s. pos s) (1 ∷ 2 ∷ []) (2 ∷ []) [] none tt).0
    ≡ ok (1 ∷ 2 ∷ [], 2 ∷ [], [])
unfolding select asked_for flags_of contains with_event split_ready select_timeout
selected = refl

select-contains_example :
    All (λ s. contains s (1 ∷ 2 ∷ []) ≡ true) (1 ∷ 2 ∷ [])
    × All (λ s. contains s (2 ∷ []) ≡ true) (2 ∷ [])
    × All (λ s. contains s [] ≡ true) []
select-contains_example =
    select-contains all_ready sockets_in_order (λ s. pos s) all_ready-IsAnswer (1 ∷ 2 ∷ []) (2 ∷ [])
      [] none tt (1 ∷ 2 ∷ [], 2 ∷ [], []) selected
