-- ===== src/Adapters.antt =====
-- internal/adapters: what the service's ports are implemented by.
pub mod Proxy
pub mod ProxyClient
pub mod RuntimeConfig
pub mod Camoufox
pub mod Cloakbrowser
pub mod Registry
pub mod Grpc
pub mod Worker
pub mod Http
