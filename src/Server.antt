-- ===== src/Server.antt =====
-- cmd/mquery and cnf: the routes and the middleware of the server, and its configuration.
pub mod Auth
pub mod Locales
pub mod Config
pub mod Cors
pub mod Translate
pub mod Monitoring
pub mod Routes
