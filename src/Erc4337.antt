-- ===== src/Erc4337.antt =====
-- erc4337/: the user operation, its JSON form, its packed form and hash, and the bundler client.
pub mod UserOp
pub mod Pack
pub mod Hash
pub mod Hex
pub mod Json
