-- ===== src/Tests.antt =====
-- Each module applies theorems at inputs of the kind that the program meets.
mod Cells
mod Integers
mod Maps
mod Arrays
mod Instructions
mod Assembly
mod Texts
mod Scanning
mod Parsing
mod Generation
