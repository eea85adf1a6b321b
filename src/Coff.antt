-- ===== src/Coff.antt =====
-- The package coff, in the order of the phases of build (coff/write.go): `File` is coff/coff.go and
-- relocType, `Format` the structures, `Strtab` the string table and the name fields, `Sections` the
-- metadata of sections, `Symbols` the symbol table, `Relocs` the relocation records, `Addends` the
-- implicit addends, `Layout` the offsets and contents, `Reader` a reader of such files, and
-- `Build` the whole.
pub mod File
pub mod Format
pub mod Sections
pub mod Strtab
pub mod Symbols
pub mod Addends
pub mod Relocs
pub mod Layout
pub mod Reader
pub mod Build
mod Examples
mod FileExample
