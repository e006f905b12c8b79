-- ===== src/Client.antt =====
-- client_wrks/wrk_offload_engine/src, the second copy of the program: wrk.c is that of src but for
-- connect_socket, which does not call SSL_set_options, and ssl.c but for ssl_init, which does not
-- enable kernel TLS. Here are the functions that this changes, which call each other as in src.
pub mod Socket
pub mod Handlers
pub mod ThreadMain
pub mod Erased
mod Tests
