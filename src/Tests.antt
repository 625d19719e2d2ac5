-- ===== src/Tests.antt =====
-- The theorems of the library at small inputs.
mod Accounts
mod Boots
mod Data
mod Installs
mod Media
mod Services
mod Uploads
