-- ===== src/Constants/Globals.antt =====
-- The constants of zmq/constants.py that stand for members of the enumerations.
use pyzmq.Base.{ℕ, List, [], ◌∷◌, ◌++◌, none, some, Bytes, bytes_eq}
use pyzmq.Base.Dict
use pyzmq.Base.Dict.{Dict}
use pyzmq.Constants.Names.{
  Binding, context_option_globals, device_type_globals, errno_globals, event_globals, flag_globals,
  message_option_globals, poll_event_globals, mechanism_globals, socket_type_globals,
}
use pyzmq.Constants.OptionNames.{first_option_globals, later_option_globals}
use pyzmq.Constants.{
  Enumeration, Platform, events, context_options, socket_types, message_options, flags, mechanisms,
  poll_events, device_types, errnos,
}
use pyzmq.Constants.Options.{OptType, socket_options}

-- The values of the names of one enumeration.
unfoldable pub bound : List Binding → Enumeration → Enumeration
bound [] members = []
bound ((name, member) ∷ bindings) members =
    let rest = bound bindings members in
    elim (Dict.lookup member members) [ none ↦ rest | some value ↦ (name, value) ∷ rest ]

-- The numbers of the socket options.
unfoldable pub numbers : Dict Bytes (ℕ × OptType) → Enumeration
numbers [] = []
numbers ((name, (n, t)) ∷ options) = (name, n) ∷ numbers options

-- The names of the module, on a platform.
unfoldable pub constants : Platform → Enumeration
unfolding bound numbers
constants platform =
    bound context_option_globals context_options
    ++ bound device_type_globals device_types
    ++ bound errno_globals (errnos platform)
    ++ bound event_globals events
    ++ bound flag_globals flags
    ++ bound message_option_globals message_options
    ++ bound poll_event_globals poll_events
    ++ bound mechanism_globals mechanisms
    ++ bound (first_option_globals ++ later_option_globals) (numbers socket_options)
    ++ bound socket_type_globals socket_types
