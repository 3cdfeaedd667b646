-- ===== src/Resources.antt =====
-- pkg/resources, pkg/resources/kubernetes, pkg/resources/openshift and pkg/openshift: the objects that
-- the operator wants to find in the cluster, built from the custom resource.
pub mod Labels
pub mod Oauth
pub mod Environment
pub mod Container
pub mod Volumes
pub mod Deployment
pub mod Service
pub mod Config
pub mod Route
pub mod Ingress
pub mod ConsoleLink
pub mod ConsoleSample
