-- ===== src/Client.antt =====
-- Calls to a model: the parameters that a provider accepts, and retries.
pub mod Params
pub mod Retry
pub mod Router
