-- ===== src/Auth/Zap/Reply.antt =====
-- Every ZAP request gets one reply, whose status tells whether access was granted.
use pyzmq.Base.{
  ◌%◌, ◌≡◌, ◌≢◌, refl, true, false, some, List, [], ◌∷◌, ◌++◌, Result, ok, err, Error, arith,
  if◌then◌else◌, bytes_eq, bytes_beq, Bytes, codes, length, All, nat_eq,
}
use pyzmq.Z85.RoundTrip.{encode-aligned}
use pyzmq.Auth.{
  Text, Answer, Codec, Authenticator, Step, authenticate_curve, curve_user_id, with_key,
}
use pyzmq.Auth.Zap.{
  version, encoded, reply_frames, send_zap_reply, Screened, screen, Decision, decided,
  invalid_credentials, raised, plain_decision, curve_answered, curve_decision, gssapi_decision,
  by_mechanism, decide, conclude, handle_zap_message,
}
use pyzmq.Auth.Zap.Access.{grants}

-- The lengths that Z85 can write. A CURVE key has 32 bytes.
abbrev pub IsAligned : Bytes → Type 0
IsAligned key = length key % 4 ≡ 0

-- The object after one more message was sent.
abbrev pub sent_one : Authenticator → List (List Bytes) → List Bytes → Authenticator
sent_one a sent frames = record a { zap_socket = some (sent ++ (frames ∷ [])) }

abbrev pub status : Decision → Bytes
status d = if grants d then codes "200" else codes "400"

-- One reply to the request, with the status of the decision and no user id but on success.
abbrev pub Replies : Bytes → Decision → Authenticator → List (List Bytes) → Step → Type 0
Replies request_id d a sent step =
    (text user : Bytes) × (step
      ≡ (ok tt, sent_one a sent (version ∷ request_id ∷ status d ∷ text ∷ user ∷ [] ∷ [])))
    × (grants d ≡ false → user ≡ [])

conclude-Replies :
    (c : Codec) (request_id : Bytes) (d : Decision) (a : Authenticator) (sent : List (List Bytes))
    → a.zap_socket ≡ some sent
    → ((e : Error) → d ≢ raised e)
    → Replies request_id d a sent (conclude c request_id d a)
unfolding conclude send_zap_reply reply_frames bytes_beq
conclude-Replies c rid (decided true reason user) a sent open_socket n =
    (codes "OK", encoded c user, rw (open_socket, send_zap_reply), λ h. absurd (cc))
conclude-Replies c rid (decided false reason user) a sent open_socket n =
    (reason, [], rw (open_socket, send_zap_reply), λ h. refl)
conclude-Replies c rid invalid_credentials a sent open_socket n =
    (codes "Invalid credentials", [], rw (open_socket, send_zap_reply), λ h. refl)
conclude-Replies c rid (raised e) a sent open_socket n = absurd (n e refl)

-- With a key that Z85 can write nothing raises.
authenticate_curve-ne-err :
    (domain : Text) (key : Bytes) (a : Authenticator) (e : Error)
    → IsAligned key
    → authenticate_curve domain key a ≢ err e
unfolding authenticate_curve with_key
authenticate_curve-ne-err domain key a e h q =
    let (z, f) = encode-aligned key h in ground (arith, f)

curve_answered-ne-raised :
    (key : Bytes) (r : Result Answer) (e : Error)
    → IsAligned key
    → ((x : Error) → r ≢ err x)
    → curve_answered key r ≢ raised e
unfolding curve_answered curve_user_id
curve_answered-ne-raised key (err x) e h n q = n x refl
curve_answered-ne-raised key (ok (false, reason)) e h n q = cc
curve_answered-ne-raised key (ok (true, reason)) e h n q =
    let (z, f) = encode-aligned key h in ground (arith, f)

by_mechanism-ne-raised :
    (c : Codec) (s : Screened) (domain : Text) (mechanism : Bytes) (credentials : List Bytes)
    (a : Authenticator) (e : Error)
    → All IsAligned credentials
    → by_mechanism c s domain mechanism credentials a ≢ raised e
unfolding by_mechanism plain_decision curve_decision gssapi_decision
by_mechanism-ne-raised c s domain m [] a e h q = ground arith
by_mechanism-ne-raised c s domain m (k ∷ []) a e h q = ground (
  arith,
  curve_answered-ne-raised k (authenticate_curve domain k a) e h.0
      (λ x. authenticate_curve-ne-err domain k a x h.0),
)
by_mechanism-ne-raised c s domain m (k ∷ l ∷ []) a e h q = ground arith
by_mechanism-ne-raised c s domain m (k ∷ l ∷ n ∷ r) a e h q = ground arith

-- A request of the right version with six frames or more, whose credentials have lengths that Z85
-- can write, gets exactly one reply on the open socket: it repeats the request's id, has status 200
-- when the decision grants access and 400 when not, and carries a user id only with 200. Nothing
-- else of the authenticator changes.
pub handle_zap_message-Replies :
    (c : Codec) (request_id domain address identity mechanism : Bytes) (credentials : List Bytes)
    (a : Authenticator) (sent : List (List Bytes))
    → a.zap_socket ≡ some sent
    → All IsAligned credentials
    → Replies request_id
        (decide c (c.decode domain) (c.decode address) mechanism credentials a)
        a
        sent
        (handle_zap_message c
          (version ∷ request_id ∷ domain ∷ address ∷ identity ∷ mechanism ∷ credentials)
          a)
unfolding handle_zap_message decide bytes_beq
handle_zap_message-Replies c rid domain address identity m creds a sent o h =
    conclude-Replies c rid (decide c (c.decode domain) (c.decode address) m creds a) a sent o λ e q.
      ground (
        arith,
        by_mechanism-ne-raised c (screen (c.decode address) a) (c.decode domain) m creds a e h,
      )
