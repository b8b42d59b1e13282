-- ===== src/Broker.antt =====
-- src/proxy/credential_proxy.py: the broker that holds the credentials. A sandbox has only a token.
pub mod Registry
pub mod Relay
pub mod Mcp
