-- ===== src/Poller.antt =====
-- zmq/sugar/poll.py, class Poller: the list of registered sockets and the dictionary `_map` of
-- their positions. A socket is its identity, a number; flags are the number that the caller
-- passes, of which only the zero test is made here. A method that may raise returns its result
-- with the object as it stands then.
pub mod Shift
pub mod Invariant
pub mod View
pub mod Runs
pub mod Tests
use pyzmq.Base.{
  ℕ, zero, suc, ◌-◌, Bool, true, false, ◌||◌, Option, none, some, List, [], ◌∷◌, ◌++◌, Result, ok,
  err, key_error, index_error, if◌then◌else◌, ◌==◌, ltb, nat_eq, length, get_elem?, set, drop,
  erase_idx,
}
use pyzmq.Base.Dict
use pyzmq.Base.Dict.{Dict}

pub record Poller : Type 0 where
  pub sockets : List (ℕ × ℕ)
  pub map : Dict ℕ ℕ

-- `__init__`
pub init : Poller
init = record { sockets = []; map = [] }

-- `__contains__`
pub contains : ℕ → Poller → Bool
contains s p = Dict.has s p.map

-- `for socket, flags in self.sockets[idx:]: self._map[socket] -= 1`, over the entries that the
-- loop has not reached; the map as it stands comes back beside the error.
pub shift : List (ℕ × ℕ) → Dict ℕ ℕ → Result (Unit {0}) × Dict ℕ ℕ
shift [] m = (ok tt, m)
shift ((k, f) ∷ rest) m = elim (Dict.lookup k m) [
  | none ↦ (err key_error, m)
  | some i ↦ shift rest (Dict.insert k (i - 1) m)
]

-- What `unregister` does after the position was popped from the map.
unregister_at : ℕ → List (ℕ × ℕ) → Dict ℕ ℕ → Result (Unit {0}) × Poller
unregister_at idx xs m =
    if ltb idx (length xs)
    then (let (r, m') = shift (drop idx (erase_idx xs idx)) m in
        (r, record { sockets = erase_idx xs idx; map = m' }))
    else (err index_error, record { sockets = xs; map = m })

pub unregister : ℕ → Poller → Result (Unit {0}) × Poller
unfolding unregister_at
unregister s p = elim (Dict.lookup s p.map) [
  | none ↦ (err key_error, p)
  | some idx ↦ unregister_at idx p.sockets (Dict.remove s p.map)
]

-- `self.sockets[idx] = (socket, flags)` for a socket that the map holds, or a new entry.
register_flags : ℕ → ℕ → Poller → Result (Unit {0}) × Poller
register_flags s f p = elim (Dict.lookup s p.map) [
  | none ↦ (
    ok tt,
    record { sockets = p.sockets ++ ((s, f) ∷ []); map = Dict.insert s (length p.sockets) p.map },
  )
  | some idx ↦
      if ltb idx (length p.sockets)
      then (ok tt, record p { sockets = set p.sockets idx (s, f) })
      else (err index_error, p)
]

pub register : ℕ → ℕ → Poller → Result (Unit {0}) × Poller
unfolding register_flags unregister contains
register s f p =
    if f == 0 then (if contains s p then unregister s p else (ok tt, p)) else register_flags s f p

pub modify : ℕ → ℕ → Poller → Result (Unit {0}) × Poller
unfolding register
modify s f p = register s f p
