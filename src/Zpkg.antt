-- ===== src/Zpkg.antt =====
-- The manifest audit of ores-cli, of which the repository has two copies: canaries/ has the one
-- with severities (`Canary`), certification/ the one without (`Certified`). `Platform` is what
-- both use of the file system, of the crates toml and serde_json.
pub mod Platform
pub mod Canary
pub mod Certified
pub mod Agreement
