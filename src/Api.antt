-- ===== src/Api.antt =====
-- src/app/api: the API boundary in front of the authorization.
pub mod RateLimit
pub mod Validation
pub mod Requests
pub mod Dispatcher
pub mod Contract
