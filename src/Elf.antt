-- ===== src/Elf.antt =====
-- elf/*.go: ELF relocatable objects, ELFCLASS64 and ELFCLASS32.
pub mod Consts
pub mod Strtab
pub mod Format
pub mod Align
pub mod File
pub mod Externals
pub mod Symbols
pub mod Relocs
pub mod Sections
pub mod Layout
pub mod Reader
pub mod Build
mod Examples
