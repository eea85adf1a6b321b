-- ===== src/Elf/Build/Tables.antt =====
-- The tables of a file that build of elf/write.go returns, as the file header, the symbol table and the
-- RELA and group sections refer to them.
use objectfile.Prelude.{◌+◌, ◌≡◌, some, List, ◌++◌, get_elem?, ◌==◌, if◌then◌else◌}
use objectfile.Prelude.Bits.{u32}
use objectfile.Prelude.Bytes.{Bytes, codes}
use objectfile.Object.{Section}
use objectfile.Elf.Consts.{sht_sym_tab, sht_rela, sht_group}
use objectfile.Elf.File.{File}
use objectfile.Elf.Format.{Class}
use objectfile.Elf.Relocs.{RelaEntry}
use objectfile.Elf.Sections.{
  SecDesc, elf_section_name, content_desc, symtab_idx_of, symtab_desc, strings_desc,
}
use objectfile.Elf.Symbols.{SymState, sym_bytes, first_global}

-- The .symtab and .strtab sections of a file.
abbrev pub symbols_of : Class → File → SymState → List RelaEntry → SecDesc
symbols_of c f table work =
    symtab_desc c (u32 (symtab_idx_of f work + 1)) (first_global f.sections)
      (sym_bytes c table.syms)

abbrev pub strings_of : SymState → SecDesc
strings_of table = strings_desc (codes ".strtab") table.strtab.payload

-- The RELA section is named after the section that its sh_info is the index of.
abbrev pub Relocates : Class → List SecDesc → SecDesc → Type 0
Relocates c descs d =
    (s : Section) × (get_elem? descs d.info ≡ some (content_desc c s))
    × (d.name ≡ codes ".rela" ++ elf_section_name s)

-- sh_link of .symtab is the index of .strtab, and that of a group or RELA section that of .symtab.
abbrev pub Linked : Class → File → SymState → List RelaEntry → List SecDesc → SecDesc → Type 0
Linked c f table work descs d =
    if d.sh_type == sht_sym_tab
    then (get_elem? descs d.link ≡ some (strings_of table))
    else if d.sh_type == sht_group
    then (get_elem? descs d.link ≡ some (symbols_of c f table work))
    else if d.sh_type == sht_rela
    then ((get_elem? descs d.link ≡ some (symbols_of c f table work)) × Relocates c descs d)
    else Unit {0}

module _ (c : Class) (f : File) (table : SymState) (work : List RelaEntry)
    (descs : List SecDesc) where
  abbrev L : SecDesc → Type 0
  L d = Linked c f table work descs d
