-- ===== src/Platform.antt =====
-- internal/platform: helpers that the adapters share.
pub mod Urls
pub mod Env
pub mod ProxyUrl
