-- ===== src/Gateway/Requests.antt =====
-- postgres.RequestGateway (internal/adapter/gateway/postgres/request_gateway.go).
pub mod Reads
pub mod Writes
pub mod Transitions
