-- ===== src/Commands.antt =====
-- cmd: what the commands do around the parts of the program.
pub mod Kube
pub mod Envs
pub mod Setup
pub mod Viper
pub mod Flags
pub mod Serving
pub mod Leaving
pub mod Addresses
pub mod Clients
pub mod Connected
pub mod Looping
mod Tests
