-- ===== src/Kube.antt =====
-- The Kubernetes API objects that the operator builds and reads (k8s.io/api, a library): their
-- fields as far as the code sets or reads them.
pub mod Meta
pub mod Pods
pub mod Net
