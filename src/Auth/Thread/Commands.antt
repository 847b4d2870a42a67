-- ===== src/Auth/Thread/Commands.antt =====
-- The pipe between `ThreadAuthenticator` and its thread: what arrives has the effect of the call.
use pyzmq.Base.{
  ◌≡◌, refl, ap, ◌∙◌, Bool, false, Option, none, some, List, [], ◌∷◌, Result, ok, through,
  ok_injective, bytes_eq, bytes_beq, Bytes,
}
use mathlib.Core.Path.{subst}
use pyzmq.Base.Dict.{Dict}
use pyzmq.Auth.{Text, Authenticator, allow, deny, configure_plain, configure_curve}
use pyzmq.Auth.Lists.{
  Call, allows, denies, starts, stops, configures_plain, configures_curve, configures_callback,
  step, run,
}
use pyzmq.Auth.Thread.{
  Codec, each, handle_allow, handle_deny, then_plain, decoded_plain, decoded_curve, handle_plain,
  then_curve, handle_curve, handle_command, handle_pipe, go_on, handle_all,
}
use pyzmq.Auth.Thread.Front

-- What the codec and JSON promise: reading gives back what was written.
pub record IsFaithful (codec : Codec) : Type 0 where
  pub decodes : (t : Text) (b : Bytes) → codec.encode t ≡ ok b → codec.decode b ≡ ok t
  pub loads_back : (t : Dict Text Text) (b : Bytes) → codec.dumps t ≡ ok b → codec.loads b ≡ ok t

some_injective : {A : Type 0} {a b : A} → some a ≡ some b → a ≡ b
some_injective h = cc

module _ (codec : Codec) where
  -- The message of a call, where the call goes over the pipe.
  unfoldable pub message : Call → Option (Result (List Bytes))
  message (allows xs) = some (Front.allow codec xs)
  message (denies xs) = some (Front.deny codec xs)
  message (configures_plain d t) = some (Front.configure_plain codec d (some t))
  message (configures_curve d l) = some (Front.configure_curve codec d l)
  message _ = none

module _ (codec : Codec) (faithful : IsFaithful codec)
    (load : Text → Result (Dict Bytes Bool)) where
  each-decode : (ts bs : List Bytes) → each codec.encode ts ≡ ok bs → each codec.decode bs ≡ ok ts
  unfolding each
  each-decode [] bs h = subst (λ bs. each codec.decode bs ≡ ok []) (ok_injective h) refl
  each-decode (t ∷ ts) bs h =
      let (b, e, h') = through _ (codec.encode t) h in
      let (rest, es, h'') = through _ (each codec.encode ts) h' in
      subst (λ bs. each codec.decode bs ≡ ok (t ∷ ts)) (ok_injective h'')
        (rw (faithful.decodes t b e, each-decode ts rest es) refl)

  allow_arrives :
      (xs : List Text) (msg : List Bytes) (a : Authenticator)
      → Front.allow codec xs ≡ ok msg
      → handle_pipe codec load (some msg) a ≡ (ok false, (allow xs a).1)
  unfolding Front.allow handle_pipe handle_command handle_allow bytes_beq
  allow_arrives xs msg a h =
      let (encoded, e, made) = through _ (each codec.encode xs) h in
      subst (λ msg. handle_pipe codec load (some msg) a ≡ (ok false, (allow xs a).1))
        (ok_injective made) (rw (each-decode xs encoded e) refl)

  deny_arrives :
      (xs : List Text) (msg : List Bytes) (a : Authenticator)
      → Front.deny codec xs ≡ ok msg
      → handle_pipe codec load (some msg) a ≡ (ok false, (deny xs a).1)
  unfolding Front.deny handle_pipe handle_command handle_deny bytes_beq
  deny_arrives xs msg a h =
      let (encoded, e, made) = through _ (each codec.encode xs) h in
      subst (λ msg. handle_pipe codec load (some msg) a ≡ (ok false, (deny xs a).1))
        (ok_injective made) (rw (each-decode xs encoded e) refl)

  plain_arrives :
      (d : Text) (t : Dict Text Text) (msg : List Bytes) (a : Authenticator)
      → Front.configure_plain codec d (some t) ≡ ok msg
      → handle_pipe codec load (some msg) a ≡ (ok false, configure_plain d t a)
  unfolding Front.configure_plain handle_pipe handle_command handle_plain decoded_plain then_plain
      bytes_beq
  plain_arrives d t msg a h =
      let (domain, e, h') = through _ (codec.encode d) h in
      let (json, e', made) = through _ (codec.dumps t) h' in
      subst (λ msg. handle_pipe codec load (some msg) a ≡ (ok false, configure_plain d t a))
        (ok_injective made) (rw (faithful.decodes d domain e, faithful.loads_back t json e') refl)

  curve_arrives :
      (d l : Text) (msg : List Bytes) (a : Authenticator)
      → Front.configure_curve codec d l ≡ ok msg
      → handle_pipe codec load (some msg) a ≡ (ok false, configure_curve load d l a)
  unfolding Front.configure_curve handle_pipe handle_command handle_curve decoded_curve then_curve
      bytes_beq
  curve_arrives d l msg a h =
      let (domain, e, h') = through _ (codec.encode d) h in
      let (location, e', made) = through _ (codec.encode l) h' in
      subst (λ msg. handle_pipe codec load (some msg) a ≡ (ok false, configure_curve load d l a))
        (ok_injective made) (rw (faithful.decodes d domain e, faithful.decodes l location e') refl)

  -- A call on the front end that gives a message, sent to the thread, changes the authenticator there as
  -- the call itself changes it, an exception that the call raises included, and the thread goes on.
  pub handle_pipe-message :
      (c : Call) (msg : List Bytes) (a : Authenticator)
      → message codec c ≡ some (ok msg)
      → handle_pipe codec load (some msg) a ≡ (ok false, step load a c)
  unfolding message step
  handle_pipe-message (allows xs) msg a h = allow_arrives xs msg a (some_injective h)
  handle_pipe-message (denies xs) msg a h = deny_arrives xs msg a (some_injective h)
  handle_pipe-message (configures_plain d t) msg a h = plain_arrives d t msg a (some_injective h)
  handle_pipe-message (configures_curve d l) msg a h = curve_arrives d l msg a (some_injective h)
  handle_pipe-message starts msg a h = absurd (cc)
  handle_pipe-message stops msg a h = absurd (cc)
  handle_pipe-message (configures_callback d p) msg a h = absurd (cc)

  -- Messages that were made from calls, one from each.
  abbrev pub AllSent : List Call → List (List Bytes) → Type 0
  AllSent [] [] = Unit {0}
  AllSent (c ∷ cs) (msg ∷ msgs) = (message codec c ≡ some (ok msg)) × AllSent cs msgs
  AllSent _ _ = ⊥

  -- Messages that front-end calls gave, handled in the order in which they were sent, leave the thread's
  -- authenticator as the calls in that order leave an authenticator, and the thread goes on.
  pub handle_all-run :
      (cs : List Call) (msgs : List (List Bytes)) (a : Authenticator)
      → AllSent cs msgs
      → handle_all codec load msgs a ≡ (ok false, run load a cs)
  unfolding handle_all run go_on
  handle_all-run [] [] a h = refl
  handle_all-run (c ∷ cs) (msg ∷ msgs) a (h, hs) =
      ap (λ r. go_on codec load r (handle_all codec load msgs)) (handle_pipe-message c msg a h)
      ∙ handle_all-run cs msgs (step load a c) hs
  handle_all-run [] (msg ∷ msgs) a h = absurd h
  handle_all-run (c ∷ cs) [] a h = absurd h
