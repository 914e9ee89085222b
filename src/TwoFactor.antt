-- ===== src/TwoFactor.antt =====
-- Two-factor login: apps/api/src/auth/totp.ts and totp.service.ts.
pub mod Totp
pub mod Login
pub mod Enrollment
mod Tests
