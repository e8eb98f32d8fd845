-- ===== src/Pulumi.antt =====
-- The Pulumi provider of cmd/pulumi/main.go: access lists as a program writes them, and the two
-- resources over a client of the service.
pub mod Acls
pub mod Resource
pub mod Configs
pub mod Directories
pub mod Safety
