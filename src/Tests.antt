-- ===== src/Tests.antt =====
-- The theorems at concrete inputs.
mod Service
mod Commands
mod LiveView
mod Tokens
mod Setup
mod Plugins
mod Proxies
mod Servers
mod Workers
mod Runtime
mod Memory
mod Validation
