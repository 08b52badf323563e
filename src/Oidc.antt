-- ===== src/Oidc.antt =====
-- my_auth/oidc.py: the framework-neutral part of the OpenID provider.
pub mod Pkce
pub mod Code
pub mod Codes
pub mod Scope
pub mod Client
pub mod Tokens
pub mod Url
pub mod Config
pub mod Users
pub mod Provider
