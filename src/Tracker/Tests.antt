-- ===== src/Tracker/Tests.antt =====
-- A tracker of two events and a peer, and events that are numbers up to a bound.
use pyzmq.Base.{ℕ, suc, ◌≡◌, refl, arith, true, some, [], ◌∷◌, ok, leb}
use pyzmq.Base.Int.{pos}
use pyzmq.Tracker.{
  Tracker, tracker, no_peers, add_peer, event, message_tracker, frame, init, done, watch, watch_all,
  add_event, has_event, insert_peer, has_peer,
}
use pyzmq.Tracker.Done.{all_done, init-done}
use pyzmq.Tracker.Wait.{
  Driver, IsLasting, wait, state, remaining_of, wait_events, in_time, if_set, timed, wait_event,
}
use pyzmq.Tracker.Wait.Returns.{wait-done}

abbrev peer : Tracker
peer = tracker 7 (3 ∷ []) no_peers

abbrev whole : Tracker
whole = tracker 8 (2 ∷ 1 ∷ []) (add_peer peer no_peers)

whole_is_made :
    init 8 (event 1 ∷ message_tracker peer ∷ event 2 ∷ frame (some peer) ∷ event 1 ∷ []) ≡ ok whole
unfolding init watch_all watch add_event has_event insert_peer has_peer
whole_is_made = refl

init-done_example :
    done (λ e. leb e 2) whole
    ≡ all_done
        (λ e. leb e 2)
        (event 1 ∷ message_tracker peer ∷ event 2 ∷ frame (some peer) ∷ event 1 ∷ [])
init-done_example =
    init-done (λ e. leb e 2) (λ i. peer) 8
      (event 1 ∷ message_tracker peer ∷ event 2 ∷ frame (some peer) ∷ event 1 ∷ []) whole
      (tt, (refl, (tt, (refl, (tt, tt))))) whole_is_made

-- The state is a number: the events up to it are set, and a wait sets the next.
abbrev growing : Driver ℕ
growing = record {
  is_set = λ e net. leb e net;
  wait = λ e r net. suc net;
  time = λ net. (5, net);
  week = 604800;
}

growing-IsLasting : IsLasting growing
growing-IsLasting = record { waited = λ e e' r net h. ground arith; timed = λ e net h. h }

waited : (wait growing whole (some (pos 1)) 1).0 ≡ ok tt
unfolding wait remaining_of wait_events in_time if_set timed wait_event
waited = refl

wait-done_example : done (state growing (wait growing whole (some (pos 1)) 1).1) whole ≡ true
wait-done_example = wait-done growing growing-IsLasting whole (some (pos 1)) 1 waited
