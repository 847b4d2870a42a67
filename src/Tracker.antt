-- ===== src/Tracker.antt =====
-- zmq/sugar/tracker.py: `MessageTracker`. Events and trackers are objects with an identity, here a
-- number; a frame is its tracker or none. The events, their waiting and the clock are parameters.
pub mod Done
pub mod Wait
pub mod Tests
use pyzmq.Base.{
  ℕ, Bool, true, false, Option, none, some, List, [], ◌∷◌, Result, ok, err, ◌>>=◌, value_error,
  type_error, if◌then◌else◌, ◌==◌, not_done,
}

mutual
  pub data Tracker : Type 0 where
    tracker : ℕ → List ℕ → Peers → Tracker

  pub data Peers : Type 0 where
    no_peers : Peers
    add_peer : Tracker → Peers → Peers

-- What a tracker can be asked to watch.
pub data Watched : Type 0 where
  event : ℕ → Watched
  message_tracker : Tracker → Watched
  frame : Option Tracker → Watched
  other : Watched

abbrev pub identity : Tracker → ℕ
identity (tracker i es ps) = i

-- Sets: an object that is in the set is not added again.
unfoldable pub has_event : ℕ → List ℕ → Bool
has_event e [] = false
has_event e (x ∷ es) = if x == e then true else has_event e es

unfoldable pub add_event : ℕ → List ℕ → List ℕ
unfolding has_event
add_event e es = if has_event e es then es else e ∷ es

unfoldable pub has_peer : ℕ → Peers → Bool
has_peer i no_peers = false
has_peer i (add_peer p ps) = if identity p == i then true else has_peer i ps

unfoldable pub insert_peer : Tracker → Peers → Peers
unfolding has_peer
insert_peer p ps = if has_peer (identity p) ps then ps else add_peer p ps

-- One round of the loop of `__init__`.
unfoldable pub watch : Watched → List ℕ × Peers → Result (List ℕ × Peers)
unfolding add_event insert_peer
watch (event e) (es, ps) = ok (add_event e es, ps)
watch (message_tracker p) (es, ps) = ok (es, insert_peer p ps)
watch (frame none) s = err value_error
watch (frame (some p)) (es, ps) = ok (es, insert_peer p ps)
watch other s = err type_error

unfoldable pub watch_all : List Watched → List ℕ × Peers → Result (List ℕ × Peers)
unfolding watch
watch_all [] s = ok s
watch_all (o ∷ os) s = watch o s >>= watch_all os

-- `__init__`
unfoldable pub init : ℕ → List Watched → Result Tracker
unfolding watch_all
init i towatch = watch_all towatch ([], no_peers) >>= λ s. ok (tracker i s.0 s.1)

-- The first loop of `done`, over the events that are set.
unfoldable pub events_set : (ℕ → Bool) → List ℕ → Bool
events_set is_set [] = true
events_set is_set (e ∷ es) = let rest = events_set is_set es in if is_set e then rest else false

unfoldable mutual
  unfolding events_set

  pub done : (ℕ → Bool) → Tracker → Bool
  done is_set (tracker i es ps) = if events_set is_set es then peers_done is_set ps else false

  -- The second loop of `done`.
  pub peers_done : (ℕ → Bool) → Peers → Bool
  peers_done is_set no_peers = true
  peers_done is_set (add_peer p ps) = if done is_set p then peers_done is_set ps else false
