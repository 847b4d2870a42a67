-- ===== src/Device/Tests.antt =====
-- A device over a backend that accepts every call and numbers ports from 49152 on.
use pyzmq.Base.{ℕ, ◌≡◌, ◌+◌, true, false, [], ◌∷◌, ◌++◌, ok, codes}
use pyzmq.Device.{Driver, Device, socket_type, member, address, prepare, reserve_random_port}
use pyzmq.Base.Gives.{Gives}
use pyzmq.Device.Setup.{perform_all, planned, prepare-planned}
use pyzmq.Device.Ports.{IsDistinct, reserve_all, reserve_all-IsDistinct, reserve_random_port-fresh}

abbrev willing : Driver ℕ
willing = record {
  socket = λ t net. (ok t, net);
  apply = λ n o net. (ok tt, net);
  bind_to_random_port = λ n addr net. (ok net, net + 1);
  close = λ n net. net;
  device = λ t i o net. (ok tt, net);
  decimal = λ n. n ∷ [];
  req = 3;
  eterm = 156;
}

abbrev queue : Device ℕ
queue = record {
  net = 49152;
  device_type = 3;
  in_type = 6;
  out_type = socket_type 5;
  in_binds = codes "tcp://*:1" ∷ [];
  in_connects = [];
  in_sockopts = (5, 1) ∷ [];
  out_binds = [];
  out_connects = codes "tcp://h:2" ∷ [];
  out_sockopts = (17, 0) ∷ [];
  random_addrs = [];
  daemon = true;
  done = false;
}

prepare-planned_example :
    prepare willing queue 6 5 queue ≡ perform_all willing (planned queue 6 5) queue
prepare-planned_example = prepare-planned willing queue 6 5 queue

reserve_random_port-fresh_example :
    Gives
      (λ (d : Device ℕ). d.random_addrs ≡ [])
      (reserve_random_port willing (codes "tcp://*"))
      (λ port d.
        (member (address willing (codes "tcp://*") port) [] ≡ false)
        × (d.random_addrs ≡ [] ++ (address willing (codes "tcp://*") port ∷ [])))
reserve_random_port-fresh_example = reserve_random_port-fresh willing [] (codes "tcp://*")

reserve_all-IsDistinct_example :
    IsDistinct
      (reserve_all willing
        ((true, codes "tcp://*") ∷ (false, codes "tcp://*") ∷ [])
        queue).random_addrs
unfolding IsDistinct
reserve_all-IsDistinct_example =
    reserve_all-IsDistinct willing ((true, codes "tcp://*") ∷ (false, codes "tcp://*") ∷ []) queue
      tt
