-- ===== src/Cffi.antt =====
-- zmq/backend/cffi: the backend for PyPy, over the functions of libzmq, which are parameters.
pub mod Poll
pub mod Calls
pub mod Options
pub mod Socket
pub mod Context
