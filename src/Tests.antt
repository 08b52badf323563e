-- ===== src/Tests.antt =====
-- Concrete runs: each theorem of the results applied where its hypotheses hold, and tests.
mod Enrollments
mod Passkeys
mod Oidc
mod Tables
mod Ceremonies
mod Provider
