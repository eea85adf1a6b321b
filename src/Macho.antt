-- ===== src/Macho.antt =====
-- macho/*.go: Mach-O relocatable objects.
pub mod File
pub mod Format
pub mod Sections
pub mod Addends
pub mod Symbols
pub mod Relocs
pub mod Layout
pub mod Reader
pub mod Build
mod Examples
