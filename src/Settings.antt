-- ===== src/Settings.antt =====
-- options/: the options of the servers and the clients, their checks and their flags.
pub mod Clients
mod Examples
pub mod Flags
pub mod Kafka
pub mod Otel
pub mod Serving
pub mod Tls
