-- ===== src/Api.antt =====
-- api/v1/gateway_types.go: the Gateway custom resource. The parts of the spec stand in the children,
-- from the leaves up.
pub mod Settings
pub mod Parts
pub mod Gateway
