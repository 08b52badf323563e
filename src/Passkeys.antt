-- ===== src/Passkeys.antt =====
-- my_auth's passkey core: passkey_models.py, passkey_memory.py and passkeys.py.
pub mod Config
pub mod Models
pub mod Challenges
pub mod Credentials
pub mod Service
pub mod Response
pub mod Stores
pub mod Ceremony
pub mod Sqlite
