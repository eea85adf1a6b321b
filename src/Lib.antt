-- ===== src/Lib.antt =====
-- objectfile assembles sections of code and data, with their symbols and relocations, into object
-- files. A caller fills object.Section values and adds them to the File of a format package, whose
-- Serialize or WriteTo produces the bytes.
--
-- Object.antt has the data model of object/*.go. Enumerations that the source declares over integers
-- are data types with a constructor more for other values; integers are natural numbers, with the
-- wrap-around of their width written out where the source converts or computes; an int64 is an
-- integer; strings and byte slices are lists of bytes.
--
-- Flat.antt is flat/flat.go: `add_section`, `write_to` and `serialize`, with `section_chunk` for
-- sectionChunk. The io.Writer of WriteTo is a parameter; Prelude/Writer.antt has its contract.
--
-- Elf.antt is elf/*.go, in the order of the phases of build64 and build32 (elf/write.go): Strtab
-- (elf/strtab.go), Format (the structures and their bytes), Align (alignUp), File (elf/elf.go),
-- Externals (externalSymbols), Symbols (phase 1), Relocs (phase 2), Sections (phase 3), Layout
-- (phases 4 and 5) and Build (build64, build32, WriteTo, Serialize). The two classes differ in the
-- structures, their sizes and the word alignment alone, so the phases are written once over a
-- `Class` record, and `class64` and `class32` fill it. Reader.antt in it is a reader of the file header
-- and the section headers, an interface that both classes fill.
--
-- Coff.antt is coff/*.go, in the order of the phases of build (coff/write.go): File (coff/coff.go and
-- relocType), Format (the structures), Strtab (coff/strtab.go, encodeSymName and setSectionName),
-- Sections (phase 2 and buildDrectve), Symbols (phases 3 and 4), Relocs (phase 5), Addends
-- (applyImplicitAddends), Layout (phase 6 and the contents in phase 7) and Build (build, WriteTo,
-- Serialize). Reader.antt in it is a reader of COFF files, stated apart from the package. Loops.antt
-- and Offsets.antt have the loops over symbols and the alignment code that the packages share.
--
-- Macho.antt is macho/*.go: File (macho/macho.go and relocDesc), Format (the structures, packRelocInfo,
-- copyPaddedName and log2), Sections (sectionMeta), Addends (applyImplicitAddends), Symbols (phase 3
-- of build in macho/write.go and externalSymbols), Relocs (phases 1, 2 and 4), Layout (phases 5 to 7
-- and the contents in phase 8) and Build (build, WriteTo, Serialize). The strTab of macho/strtab.go is
-- the same code as that of elf, and is modelled there. Reader.antt in it reads the entry of a section,
-- what it points to, and its relocation records.
--
-- Prelude.antt has what the packages use of Go: machine words and bit operations, little-endian
-- fields, maps as association lists, sort.Strings by its result, errors as values.
--
-- All loops run over the sections, symbols or relocations of a file and are recursions on lists;
-- only those of alignFlag in coff and of log2 in macho, which halve a number, take that number as
-- fuel. The texts of error messages are not modelled. binary.Write into a buffer does not fail, so
-- its errors are left out. Neither are the limits of memory modelled: a slice or a string may
-- have any length, and the panic of bytes in coff/strtab.go on a table of 4 GiB is outside the model.
pub mod Coff
pub mod Elf
pub mod Flat
pub mod Loops
pub mod Macho
pub mod Object
pub mod Offsets
pub mod Prelude
