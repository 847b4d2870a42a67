-- ===== src/Context/Tests.antt =====
-- A context over a backend that accepts every call.
use pyzmq.Base.{
  ℕ, refl, false, none, some, [], ◌∷◌, ok, err, zmq_error, nat_eq, ◌==◌, ◌⊎◌, if◌then◌else◌,
}
use pyzmq.Context.{Driver, Context, init, destroy, Instances}
use pyzmq.Context.Destroy.{IsShutDown, IsAborted, destroy-ends, destroy-IsShutDown}
use pyzmq.Context.Destroy.Returns.{NeverRaises}

abbrev willing : Driver ℕ
willing = record {
  create = λ n t net. (ok tt, net);
  is_not_socket = λ n net. (ok false, net);
  close = λ n net. (ok tt, net);
  term = λ net. (ok tt, net);
  setsockopt = λ n o v net. (ok tt, net);
  linger_option = 17;
  enotsup = 95;
  context_set = λ o v net. (ok tt, net);
  context_get = λ o net. ok 0;
  is_context_option = λ name. false;
  socket_option = λ name. none;
}

abbrev in_use : Context ℕ
in_use = record (init 0) { sockets = 1 ∷ 0 ∷ []; next_socket = 2 }

willing-NeverRaises : NeverRaises willing
willing-NeverRaises = record {
  tested = λ n net. (false, refl);
  lingers = λ n v net. refl;
  closes = λ n net. refl;
  terminates = λ net. refl;
}

destroy-IsShutDown_example : IsShutDown in_use (destroy willing (some 0) in_use)
unfolding init
destroy-IsShutDown_example = destroy-IsShutDown willing (some 0) in_use willing-NeverRaises refl

-- A backend that fails to close the socket 1.
abbrev failing : Driver ℕ
failing = record willing {
  close = λ n net. if n == 1 then (err (zmq_error 14), net) else (ok tt, net);
}

destroy-ends_example :
    IsShutDown in_use (destroy failing none in_use) ⊎ IsAborted in_use (destroy failing none in_use)
unfolding init
destroy-ends_example = destroy-ends failing none in_use refl

-- After a fork: the instance is one of the parent's.
abbrev forked : Instances
forked = record {
  current = some 0;
  instance_pid = some 100;
  next_context = 1;
  closed_flags = (0, false) ∷ [];
}
