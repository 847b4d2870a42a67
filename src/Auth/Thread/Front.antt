-- ===== src/Auth/Thread/Front.antt =====
-- `ThreadAuthenticator` (zmq/auth/thread.py): the message that each call sends on the pipe.
use pyzmq.Base.{Option, none, some, List, [], ◌∷◌, Result, ok, ◌>>=◌, Bytes, codes}
use pyzmq.Base.Dict.{Dict}
use pyzmq.Auth.{Text}
use pyzmq.Auth.Thread.{Codec, each}

module _ (codec : Codec) where
  unfoldable pub allow : List Text → Result (List Bytes)
  unfolding each
  allow addresses = each codec.encode addresses >>= λ encoded. ok (codes "ALLOW" ∷ encoded)

  unfoldable pub deny : List Text → Result (List Bytes)
  unfolding each
  deny addresses = each codec.encode addresses >>= λ encoded. ok (codes "DENY" ∷ encoded)

  -- `passwords or {}`: none is an empty dictionary
  unfoldable pub configure_plain : Text → Option (Dict Text Text) → Result (List Bytes)
  configure_plain domain passwords = codec.encode domain >>= λ d.
      codec.dumps (elim passwords [ none ↦ [] | some t ↦ t ]) >>= λ json.
      ok (codes "PLAIN" ∷ d ∷ json ∷ [])

  unfoldable pub configure_curve : Text → Text → Result (List Bytes)
  configure_curve domain location =
      codec.encode domain >>= λ d. codec.encode location >>= λ l. ok (codes "CURVE" ∷ d ∷ l ∷ [])

  pub terminate : List Bytes
  terminate = codes "TERMINATE" ∷ []
