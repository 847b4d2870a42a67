-- ===== src/Auth/Curve.antt =====
-- CURVE authentication (`_authenticate_curve`): which keys are allowed.
use pyzmq.Base.{
  ◌≡◌, ◌↔◌, inl, inr, Bool, true, false, some, Result, ok, err, arith, bytes_eq, Bytes, codes,
  is_empty, Bool-cases, Option-cases, Result-cases,
}
use pyzmq.Base.Dict
use pyzmq.Base.Dict.{Dict, lookup-is_empty}
use pyzmq.Z85
use pyzmq.Auth.{
  Text, Provider, Answer, Authenticator, or_default, authenticate_curve, with_key, accept_key,
  known_key,
}

-- The three ways in which a key is allowed, in the order of precedence.
pub data KeyAllowed (domain : Text) (key : Bytes) (a : Authenticator) : Type 0 where
  anyone : a.allow_any ≡ true → KeyAllowed domain key a
  by_provider :
      (p : Provider) (z : Bytes)
      → a.allow_any ≡ false
      → Dict.lookup (or_default domain) a.credentials_providers ≡ some p
      → Z85.encode key ≡ ok z
      → p (or_default domain) z ≡ true
      → KeyAllowed domain key a
  by_certificate :
      (t : Dict Bytes Bool) (z : Bytes)
      → a.allow_any ≡ false
      → is_empty a.credentials_providers ≡ true
      → Dict.lookup (or_default domain) a.certs ≡ some t
      → Z85.encode key ≡ ok z
      → Dict.lookup z t ≡ some true
      → KeyAllowed domain key a

-- Whether an answer, if there is one, is yes.
abbrev pub accepted : Result Answer → Bool
accepted (ok (allowed, reason)) = allowed
accepted (err e) = false

known_key_iff :
    (z : Bytes) (t : Dict Bytes Bool) → (known_key z t ≡ true) ↔ (Dict.lookup z t ≡ some true)
unfolding known_key
known_key_iff z t = ((λ h. ground arith), (λ h. ground arith))

with_key_sound :
    (key : Bytes) (test : Bytes → Bool)
    → accepted (with_key key test) ≡ true
    → (z : Bytes) × (Z85.encode key ≡ ok z) × (test z ≡ true)
unfolding with_key accept_key
with_key_sound key test h = elim (Result-cases (Z85.encode key)) [
  | inl (z, e) ↦
      (z, e, elim (Bool-cases (test z)) [ inl t ↦ t | inr f ↦ absurd (ground (arith, e, f)) ])
  | inr (x, e) ↦ absurd (let g : false ≡ true = rw (e, with_key) at h in cc)
]

with_key_complete :
    (key z : Bytes) (test : Bytes → Bool)
    → Z85.encode key ≡ ok z
    → test z ≡ true
    → with_key key test ≡ ok (true, codes "OK")
unfolding with_key accept_key
with_key_complete key z test e t = rw (e, with_key) (rw t)

authenticate_curve_sound :
    (domain : Text) (key : Bytes) (a : Authenticator)
    → accepted (authenticate_curve domain key a) ≡ true
    → KeyAllowed domain key a
unfolding authenticate_curve
authenticate_curve_sound domain key a h = elim (Bool-cases a.allow_any) [
  | inl y ↦ KeyAllowed.anyone y
  | inr n ↦ elim (Bool-cases (is_empty a.credentials_providers)) [
    | inl e ↦ elim (Option-cases (Dict.lookup (or_default domain) a.certs)) [
      | inl m ↦ absurd (ground (arith, m))
      | inr (t, m) ↦
          let (z, ez, test) = with_key_sound key (λ k. known_key k t) (ground (arith, m)) in
          KeyAllowed.by_certificate t z n e m ez ((known_key_iff z t).0 test)
    ]
    | inr ne ↦ elim (Option-cases (Dict.lookup (or_default domain) a.credentials_providers)) [
      | inl m ↦ absurd (ground (arith, m))
      | inr (p, m) ↦
          let (z, ez, test) = with_key_sound key (p (or_default domain)) (ground (arith, m)) in
          KeyAllowed.by_provider p z n m ez test
    ]
  ]
]

authenticate_curve_complete :
    (domain : Text) (key : Bytes) (a : Authenticator)
    → KeyAllowed domain key a
    → authenticate_curve domain key a ≡ ok (true, codes "OK")
unfolding authenticate_curve
authenticate_curve_complete domain key a (KeyAllowed.anyone y) = rw y
authenticate_curve_complete domain key a (KeyAllowed.by_provider p z n m ez test) =
    rw (n, lookup-is_empty (or_default domain) a.credentials_providers m)
      (rw (m, authenticate_curve) (with_key_complete key z (p (or_default domain)) ez test))
authenticate_curve_complete domain key a (KeyAllowed.by_certificate t z n e m ez k) =
    rw (n, e)
      (rw (m, authenticate_curve)
        (with_key_complete key z (λ x. known_key x t) ez ((known_key_iff z t).1 k)))

pub authenticate_curve_iff :
    (domain : Text) (key : Bytes) (a : Authenticator)
    → (accepted (authenticate_curve domain key a) ≡ true) ↔ KeyAllowed domain key a
authenticate_curve_iff domain key a =
    (authenticate_curve_sound domain key a, λ k. rw (authenticate_curve_complete domain key a k))
