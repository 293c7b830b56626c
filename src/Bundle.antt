-- ===== src/Bundle.antt =====
-- pkg/gateway/util/bundle.go: the gateway-management bundles that the operator writes into ConfigMaps.
pub mod Xml
pub mod Token
pub mod Cwp
pub mod ListenPort
