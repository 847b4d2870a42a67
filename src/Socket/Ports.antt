-- ===== src/Socket/Ports.antt =====
-- `Socket.bind_to_random_port` (zmq/sugar/socket.py). The backend, the random numbers and the
-- conversion between texts and numbers are parameters.
use pyzmq.Base.{
  ℕ, zero, suc, ◌≤◌, ◌<◌, ◌≡◌, refl, Bool, false, ◌&&◌, ◌||◌, Option, none, some, [], ◌∷◌, ◌++◌,
  Result, ok, err, zmq_error, bind_error, value_error, if◌then◌else◌, ◌==◌, Bytes, codes,
  Bool-cases, inl, inr,
}
use pyzmq.Base.Exec.{Exec, pure, raise, attempt, ◌>>=◌, ◌>>◌, continue}
use pyzmq.Base.Post.{Post, post_ok}

pub record Driver (Net : Type 0) : Type 0 where
  pub has_last_endpoint : Bool
  pub bind : Bytes → Net → Result (Unit {0}) × Net
  pub last_endpoint : Net → Result Bytes
  pub randrange : ℕ → ℕ → Net → Result ℕ × Net
  pub decimal : ℕ → Bytes
  pub to_int : Bytes → Result ℕ
  pub eaddrinuse : ℕ
  pub eacces : ℕ
  pub on_windows : Bool

-- `_, port_s = url.rsplit(':', 1)`: what follows the last colon
pub after_colon : Bytes → Option Bytes
after_colon [] = none
after_colon (c ∷ cs) = elim (after_colon cs) [
  | some port ↦ some port
  | none ↦ if c == b':' then some cs else none
]

module _ {Net : Type 0} (drv : Driver Net) where
  abbrev pub Method : Type 0 → Type 0
  Method A = Exec Net A

  -- `f'{addr}:{port}'`
  unfoldable pub address : Bytes → ℕ → Bytes
  address addr port = addr ++ (codes ":" ++ drv.decimal port)

  -- `int(port_s)`, where the url has a port
  pub port_of_url : Bytes → Result ℕ
  unfolding after_colon
  port_of_url url = elim (after_colon url) [ none ↦ err value_error | some port ↦ drv.to_int port ]

  -- The operating system chooses the port.
  pub bind_to_any : Bytes → Method ℕ
  unfolding port_of_url
  bind_to_any addr = do
    drv.bind (addr ++ codes ":*")
    url ← (λ net. (drv.last_endpoint net, net))
    λ net. (port_of_url url, net)

  -- Whether the loop goes on after an error of `bind`.
  unfoldable pub is_taken : ℕ → Bool
  is_taken n = n == drv.eaddrinuse || (drv.on_windows && n == drv.eacces)

  unfoldable pub settle : ℕ → Method ℕ → Result (Unit {0}) → Method ℕ
  unfolding is_taken
  settle port rest (ok _) = pure port
  settle port rest (err (zmq_error n)) = if is_taken n then rest else raise (zmq_error n)
  settle port rest (err e) = raise e

  -- The loop, with the tries that are left.
  unfoldable pub try_ports : ℕ → Bytes → ℕ → ℕ → Method ℕ
  unfolding address settle
  try_ports zero addr min_port max_port = raise bind_error
  try_ports (suc tries) addr min_port max_port = do
    port ← drv.randrange min_port max_port
    bound ← attempt (drv.bind (address addr port))
    settle port (try_ports tries addr min_port max_port) bound

  unfoldable pub bind_to_random_port : Bytes → ℕ → ℕ → ℕ → Method ℕ
  unfolding bind_to_any
  bind_to_random_port addr min_port max_port max_tries =
      if drv.has_last_endpoint && min_port == 49152 && max_port == 65536
      then bind_to_any addr
      else try_ports max_tries addr min_port max_port

  -- `random.randrange` answers a number of the range.
  abbrev pub InRange : Type 0
  InRange =
      (lo hi port : ℕ) (net : Net)
      → (drv.randrange lo hi net).0 ≡ ok port
      → (lo ≤ port) × (port < hi)

  -- The port lies in the range, and the last thing that happened to the socket is that it was bound
  -- to it.
  abbrev pub IsBound : Bytes → ℕ → ℕ → ℕ → Net → Type 0
  IsBound addr lo hi port after =
      (lo ≤ port)
      × (port < hi)
      × ((before : Net) × (drv.bind (address addr port) before ≡ (ok tt, after)))

module _ {Net : Type 0} (drv : Driver Net) (in_range : InRange drv) where
  settle-IsBound :
      (addr : Bytes) (lo hi port : ℕ) (rest : Exec Net ℕ) (r : Result (Unit {0}))
      (before after : Net)
      → (lo ≤ port) × (port < hi)
      → drv.bind (address drv addr port) before ≡ (r, after)
      → ((net : Net) → Post (IsBound drv addr lo hi) (rest net).0 (rest net).1)
      → Post
          (IsBound drv addr lo hi)
          (settle drv port rest r after).0
          (settle drv port rest r after).1
  unfolding settle
  settle-IsBound addr lo hi port rest (ok _) before after (l, h) e k = (l, h, (before, e))
  settle-IsBound addr lo hi port rest (err (zmq_error n)) before after p e k =
      elim (Bool-cases (is_taken drv n)) [ inl t ↦ rw t (k after) | inr t ↦ rw t tt ]
  settle-IsBound addr lo hi port rest (err _) before after p e k = tt

  continue-IsBound :
      (addr : Bytes) (lo hi : ℕ) (rest : Exec Net ℕ) (r : Result ℕ) (net : Net)
      → ((port : ℕ) → r ≡ ok port → (lo ≤ port) × (port < hi))
      → ((net' : Net) → Post (IsBound drv addr lo hi) (rest net').0 (rest net').1)
      → let done =
          continue r
            (λ port.
              attempt (drv.bind (address drv addr port)) >>= λ bound. settle drv port rest bound)
            net in
        Post (IsBound drv addr lo hi) done.0 done.1
  continue-IsBound addr lo hi rest (ok port) net h k =
      settle-IsBound addr lo hi port rest (drv.bind (address drv addr port) net).0 net
        (drv.bind (address drv addr port) net).1 (h port refl) refl k
  continue-IsBound addr lo hi rest (err e) net h k = tt

  try_ports-IsBound :
      (tries : ℕ) (addr : Bytes) (lo hi : ℕ) (net : Net)
      → Post
          (IsBound drv addr lo hi)
          (try_ports drv tries addr lo hi net).0
          (try_ports drv tries addr lo hi net).1
  unfolding try_ports
  try_ports-IsBound zero addr lo hi net = tt
  try_ports-IsBound (suc tries) addr lo hi net =
      continue-IsBound addr lo hi (try_ports drv tries addr lo hi) (drv.randrange lo hi net).0
        (drv.randrange lo hi net).1 (λ port h. in_range lo hi port net h)
        (try_ports-IsBound tries addr lo hi)

  -- Outside the default range, if `bind_to_random_port` returns a port, then the port lies in the
  -- range, the minimum included and the maximum not, and the socket was bound to it last.
  pub bind_to_random_port-IsBound :
      (addr : Bytes) (lo hi tries port : ℕ) (net : Net)
      → (drv.has_last_endpoint && lo == 49152 && hi == 65536) ≡ false
      → (bind_to_random_port drv addr lo hi tries net).0 ≡ ok port
      → IsBound drv addr lo hi port (bind_to_random_port drv addr lo hi tries net).1
  unfolding bind_to_random_port
  bind_to_random_port-IsBound addr lo hi tries port net d h = rw d (
      post_ok (IsBound drv addr lo hi) (try_ports drv tries addr lo hi net).0 _ port
        (try_ports-IsBound tries addr lo hi net) (rw d at h))
