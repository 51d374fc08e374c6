-- ===== src/Client.antt =====
-- internal/client: the client side of the protocol.
pub mod Tree
pub mod Certificate
pub mod Read
pub mod Current
pub mod Stage
pub mod Deploy
