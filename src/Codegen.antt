-- ===== src/Codegen.antt =====
-- src/core/codegen.c: the scopes of the code generator.
pub mod Registers
pub mod Variables
