-- ===== src/Gateway.antt =====
-- cmd/idrive-gateway: the password of the local server.
pub mod Password
