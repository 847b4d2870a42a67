-- ===== src/Auth/Lists.antt =====
-- The whitelist and the blacklist of `Authenticator` over any configuration history.
use pyzmq.Base.{◌≡◌, refl, ◌⊎◌, inl, true, Option, List, [], ◌∷◌, Result, arith, is_empty}
use pyzmq.Base.Dict.{Dict}
use pyzmq.Base.{Bool, Bytes}
use pyzmq.Auth.{
  Text, Provider, Authenticator, init, start, stop, allow, deny, configure_plain, configure_curve,
  configure_curve_callback,
}

pub data Call : Type 0 where
  allows denies : List Text → Call
  starts stops : Call
  configures_plain : Text → Dict Text Text → Call
  configures_curve : Text → Text → Call
  configures_callback : Text → Option Provider → Call

-- The authenticator after a call, whether it returns or raises.
unfoldable pub step : (Text → Result (Dict Bytes Bool)) → Authenticator → Call → Authenticator
step load a (allows xs) = (allow xs a).1
step load a (denies xs) = (deny xs a).1
step load a starts = start a
step load a stops = stop a
step load a (configures_plain d t) = configure_plain d t a
step load a (configures_curve d l) = configure_curve load d l a
step load a (configures_callback d p) = configure_curve_callback d p a

unfoldable pub run : (Text → Result (Dict Bytes Bool)) → Authenticator → List Call → Authenticator
run load a [] = a
run load a (c ∷ cs) = run load (step load a c) cs

-- At most one of the two lists has addresses.
abbrev pub IsExclusive : Authenticator → Type 0
IsExclusive a = (is_empty a.whitelist ≡ true) ⊎ (is_empty a.blacklist ≡ true)

step-IsExclusive :
    (load : Text → Result (Dict Bytes Bool)) (a : Authenticator) (c : Call)
    → IsExclusive a
    → IsExclusive (step load a c)
unfolding step allow deny start stop configure_plain configure_curve configure_curve_callback
step-IsExclusive load a (allows xs) h = ground arith
step-IsExclusive load a (denies xs) h = ground arith
step-IsExclusive load a starts h = h
step-IsExclusive load a stops h = h
step-IsExclusive load a (configures_plain d t) h = ground arith
step-IsExclusive load a (configures_curve d l) h = ground arith
step-IsExclusive load a (configures_callback d p) h = ground arith

run_from :
    (load : Text → Result (Dict Bytes Bool)) (a : Authenticator) (cs : List Call)
    → IsExclusive a
    → IsExclusive (run load a cs)
unfolding run
run_from load a [] h = h
run_from load a (c ∷ cs) h = run_from load (step load a c) cs (step-IsExclusive load a c h)

-- After any sequence of configuration calls on a new authenticator, refused calls included, the
-- whitelist or the blacklist is empty.
pub run-IsExclusive :
    (load : Text → Result (Dict Bytes Bool)) (cs : List Call) → IsExclusive (run load init cs)
unfolding init
run-IsExclusive load cs = run_from load init cs (inl refl)
