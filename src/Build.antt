-- ===== src/Build.antt =====
-- pkg/gateway/{config,secrets,service,ingress,hpa} and deployment.go: the objects that a Gateway
-- asks for, built from its spec.
pub mod Config
pub mod Secret
pub mod Service
pub mod Ingress
pub mod Hpa
pub mod Deployment
pub mod Selectors
pub mod PortNames
pub mod IngressRoutes
