-- ===== src/Crypto.antt =====
-- backend/src/common/crypto: the codes of two-factor authentication.
pub mod Base32
pub mod Totp
