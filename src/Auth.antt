-- ===== src/Auth.antt =====
-- server/src/modules/auth/auth.service.ts: accounts, e-mail codes and human tokens.
pub mod Store
pub mod Normalize
pub mod Codes
pub mod Accounts
pub mod Registration
pub mod Tokens
pub mod Limit
pub mod Moves
pub mod Saved
pub mod Guesses
pub mod Overlap
pub mod Accepted
pub mod Reset
pub mod Sessions
pub mod Revoked
pub mod Signing
pub mod Digits
pub mod Sent
pub mod Spent
pub mod Used
pub mod Login
pub mod Registered
pub mod Scenarios
