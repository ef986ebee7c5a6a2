-- ===== src/Node/Service.antt =====
-- The services of the node: node/src/service.rs. What it calls in the libraries is written down
-- call by call, and answered by a library that is a parameter; node/src/service.rs itself is the
-- order of the calls, their arguments, and what is done with the answers.
pub mod Calls
pub mod Partial
pub mod Follows
pub mod Full
pub mod Light
pub mod Started
pub mod Order
pub mod Laws
