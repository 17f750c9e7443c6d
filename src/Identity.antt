-- ===== src/Identity.antt =====
-- src/contexts/identity: the server-side session store and the synthetic identity provider.
pub mod Sessions
pub mod Provider
