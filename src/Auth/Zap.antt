-- ===== src/Auth/Zap.antt =====
-- The ZAP message handler of `Authenticator`: one request, one reply.
pub mod Reply
pub mod Access
use pyzmq.Base.{
  ℕ, Bool, true, false, not, ◌&&◌, Option, none, some, List, [], ◌∷◌, ◌++◌, Result, ok, err,
  attribute_error, Error, if◌then◌else◌, Eq, bytes_eq, Bytes, codes, is_empty,
}
use pyzmq.Auth.{
  Text, Codec, UserId, text, raw, Authenticator, Step, member, Answer, authenticate_plain,
  authenticate_curve, authenticate_gssapi, curve_user_id,
}

abbrev pub version : Bytes
version = codes "1.0"

abbrev pub anonymous : UserId
anonymous = text (codes "anonymous")

-- `user_id.encode(self.encoding, 'replace')` for a text, and the bytes themselves otherwise
encoded : Codec → UserId → Bytes
encoded c (text t) = c.encode t
encoded c (raw b) = b

-- The message that `_send_zap_reply` sends.
pub reply_frames : Codec → Bytes → Bytes → Bytes → UserId → List Bytes
unfolding encoded
reply_frames c request_id status_code status_text user_id =
    version
    ∷ request_id
    ∷ status_code
    ∷ status_text
    ∷ encoded c (if bytes_eq.beq status_code (codes "200") then user_id else raw [])
    ∷ []
    ∷ []

-- `self.zap_socket.send_multipart(reply)`; without a socket this is an `AttributeError`.
pub send_zap_reply : Codec → Bytes → Bytes → Bytes → UserId → Authenticator → Step
unfolding reply_frames
send_zap_reply c request_id status_code status_text user_id a = elim a.zap_socket [
  | none ↦ (err attribute_error, a)
  | some sent ↦ (
    ok tt,
    record a {
      zap_socket = some (sent ++ (reply_frames c request_id status_code status_text user_id ∷ []));
    },
  )
]

-- What the address tests leave in `allowed`, `denied` and `reason`.
pub record Screened : Type 0 where
  pub allowed : Bool
  pub denied : Bool
  pub reason : Bytes

pub screen : Text → Authenticator → Screened
screen address a =
    if not (is_empty a.whitelist)
    then (if member address a.whitelist
        then record { allowed = true; denied = false; reason = codes "NO ACCESS" }
        else record { allowed = false; denied = true; reason = codes "Address not in whitelist" })
    else if not (is_empty a.blacklist)
    then (if member address a.blacklist
        then record { allowed = false; denied = true; reason = codes "Address is blacklisted" }
        else record { allowed = true; denied = false; reason = codes "NO ACCESS" })
    else record { allowed = false; denied = false; reason = codes "NO ACCESS" }

-- The outcome of the mechanism's check: an answer, a reply at once, or an exception.
pub data Decision : Type 0 where
  decided : Bool → Bytes → UserId → Decision
  invalid_credentials : Decision
  raised : Error → Decision

answered : UserId → Answer → Decision
answered user (allowed, reason) = decided allowed reason user

plain_decision : Codec → Text → List Bytes → Authenticator → Decision
unfolding answered
plain_decision c domain (username ∷ password ∷ []) a =
    answered (text (c.decode username))
      (authenticate_plain domain (c.decode username) (c.decode password) a)
plain_decision c domain _ a = invalid_credentials

-- The user id is computed only where the key is allowed.
curve_answered : Bytes → Result Answer → Decision
curve_answered key (err e) = raised e
curve_answered key (ok (false, reason)) = decided false reason anonymous
curve_answered key (ok (true, reason)) = elim (curve_user_id key) [
  | ok user ↦ decided true reason (text user)
  | err e ↦ raised e
]

curve_decision : Text → List Bytes → Authenticator → Decision
unfolding curve_answered
curve_decision domain (key ∷ []) a = curve_answered key (authenticate_curve domain key a)
curve_decision domain _ a = invalid_credentials

gssapi_decision : Text → List Bytes → Decision
unfolding answered authenticate_gssapi
gssapi_decision domain (principal ∷ []) =
    answered (raw principal) (authenticate_gssapi domain principal)
gssapi_decision domain _ = invalid_credentials

-- The chain of mechanism tests; a mechanism of another name leaves the address's verdict.
pub by_mechanism : Codec → Screened → Text → Bytes → List Bytes → Authenticator → Decision
by_mechanism c s domain mechanism credentials a =
    if bytes_eq.beq mechanism (codes "NULL") && not s.allowed
    then decided true s.reason anonymous
    else if bytes_eq.beq mechanism (codes "PLAIN")
    then plain_decision c domain credentials a
    else if bytes_eq.beq mechanism (codes "CURVE")
    then curve_decision domain credentials a
    else if bytes_eq.beq mechanism (codes "GSSAPI")
    then gssapi_decision domain credentials
    else decided s.allowed s.reason anonymous

pub decide : Codec → Text → Text → Bytes → List Bytes → Authenticator → Decision
unfolding by_mechanism
decide c domain address mechanism credentials a =
    let s = screen address a in
    if s.denied
    then decided false s.reason anonymous
    else by_mechanism c s domain mechanism credentials a

-- The reply to a decision.
pub conclude : Codec → Bytes → Decision → Authenticator → Step
conclude c request_id (decided true reason user) a =
    send_zap_reply c request_id (codes "200") (codes "OK") user a
conclude c request_id (decided false reason user) a =
    send_zap_reply c request_id (codes "400") reason anonymous a
conclude c request_id invalid_credentials a =
    send_zap_reply c request_id (codes "400") (codes "Invalid credentials") anonymous a
conclude c request_id (raised e) a = (err e, a)

pub handle_zap_message : Codec → List Bytes → Authenticator → Step
unfolding conclude
handle_zap_message c (v ∷ request_id ∷ domain ∷ address ∷ identity ∷ mechanism ∷ credentials) a =
    if bytes_eq.beq v version
    then conclude c request_id
        (decide c (c.decode domain) (c.decode address) mechanism credentials a) a
    else send_zap_reply c request_id (codes "400") (codes "Invalid version") anonymous a
handle_zap_message c (v ∷ request_id ∷ rest) a =
    send_zap_reply c request_id (codes "400") (codes "Not enough frames") anonymous a
handle_zap_message c _ a = (ok tt, a)
