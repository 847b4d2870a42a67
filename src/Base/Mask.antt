-- ===== src/Base/Mask.antt =====
-- Poll masks (zmq/constants.py, PollEvent) as sets of the three events, with their bit patterns.
use Prim.Native.Nat.{ℕ, ◌+◌, bit_and, bit_or}
use mathlib.Core.Path.{◌≡◌, refl}
use mathlib.Core.Bool.{Bool, true, false, ◌&&◌, ◌||◌, not}
use pyzmq.Base.Tests.{if◌then◌else◌, ◌==◌}

pub record Mask : Type 0 where
  pub pollin : Bool
  pub pollout : Bool
  pub pollerr : Bool

abbrev pub mask : Bool → Bool → Mask
mask i o = record { pollin = i; pollout = o; pollerr = false }

-- POLLIN = 1, POLLOUT = 2, POLLERR = 4
abbrev pub no_events : Mask
no_events = mask false false

abbrev pub pollin_mask : Mask
pollin_mask = mask true false

abbrev pub pollout_mask : Mask
pollout_mask = mask false true

abbrev pub pollerr_mask : Mask
pollerr_mask = record { pollin = false; pollout = false; pollerr = true }

-- `a | b`
abbrev pub union : Mask → Mask → Mask
union a b = record {
  pollin = a.pollin || b.pollin;
  pollout = a.pollout || b.pollout;
  pollerr = a.pollerr || b.pollerr;
}

-- `a & b`
abbrev pub inter : Mask → Mask → Mask
inter a b = record {
  pollin = a.pollin && b.pollin;
  pollout = a.pollout && b.pollout;
  pollerr = a.pollerr && b.pollerr;
}

-- `a & ~b`
abbrev pub minus : Mask → Mask → Mask
minus a b = record {
  pollin = a.pollin && not b.pollin;
  pollout = a.pollout && not b.pollout;
  pollerr = a.pollerr && not b.pollerr;
}

-- The truth value of a mask.
abbrev pub any : Mask → Bool
any a = a.pollin || a.pollout || a.pollerr

-- The number that the program computes with.
abbrev pub to_ℕ : Mask → ℕ
to_ℕ a = (if a.pollin then 1 else 0) + (if a.pollout then 2 else 0) + (if a.pollerr then 4 else 0)

-- Both readings of a mask agree on `|` and `&`, checked on all masks.
agree : Mask → Mask → Bool
agree a b =
    to_ℕ (union a b) == bit_or (to_ℕ a) (to_ℕ b) && to_ℕ (inter a b) == bit_and (to_ℕ a) (to_ℕ b)

both : (Bool → Bool) → Bool
both p = p true && p false

masks_agree :
    both (λ i. both (λ o. both (λ e. both (λ i'. both (λ o'. both (λ e'.
      agree
        (record { pollin = i; pollout = o; pollerr = e })
        (record { pollin = i'; pollout = o'; pollerr = e' })))))))
    ≡ true
unfolding both agree
masks_agree = refl
