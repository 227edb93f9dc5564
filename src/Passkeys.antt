-- ===== src/Passkeys.antt =====
-- Users and their passkeys: src/domain/credential.go, src/domain/user.go, and the registration of a passkey.
pub mod Credential
pub mod User
pub mod Registration
