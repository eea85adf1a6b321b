-- ===== src/Coff/Format.antt =====
-- The COFF structures of coff/write.go and their bytes: field by field as binary.Write puts them
-- out, and as `encodeSymbol` and `encodeCOMDATAux` do.
pub mod Decode
use objectfile.Prelude.{ℕ, List, [], ◌∷◌, ◌++◌, replicate}
use objectfile.Prelude.Bytes.{Bytes, put_le}

abbrev pub coff_file_hdr_size : ℕ
coff_file_hdr_size = 20

abbrev pub coff_sec_hdr_size : ℕ
coff_sec_hdr_size = 40

abbrev pub coff_sym_size : ℕ
coff_sym_size = 18

abbrev pub coff_reloc_size : ℕ
coff_reloc_size = 10

abbrev pub sym_class_external : ℕ
sym_class_external = 2

abbrev pub sym_class_static : ℕ
sym_class_static = 3

abbrev pub sym_type_null : ℕ
sym_type_null = 0

abbrev pub sym_type_func : ℕ
sym_type_func = 0x20

abbrev pub sym_section_undef : ℕ
sym_section_undef = 0

abbrev pub comdat_select_any : ℕ
comdat_select_any = 2

-- The fields of coffFileHdr that build sets to more than zero.
pub record FileHdr : Type 0 where
  pub machine : ℕ
  pub number_of_sections : ℕ
  pub pointer_to_symbol_table : ℕ
  pub number_of_symbols : ℕ

unfoldable pub encode_file_hdr : FileHdr → Bytes
encode_file_hdr h =
    put_le 2 h.machine
    ++ (put_le 2 h.number_of_sections
        ++ (put_le 4 0
            ++ (put_le 4 h.pointer_to_symbol_table
                ++ (put_le 4 h.number_of_symbols ++ (put_le 2 0 ++ put_le 2 0)))))

-- coffSecHdr without the four fields that are always zero; the name is 8 bytes.
pub record SecHdr : Type 0 where
  pub name : Bytes
  pub size_of_raw_data : ℕ
  pub pointer_to_raw_data : ℕ
  pub pointer_to_relocations : ℕ
  pub number_of_relocations : ℕ
  pub characteristics : ℕ

unfoldable pub encode_sec_hdr : SecHdr → Bytes
encode_sec_hdr h =
    h.name
    ++ (put_le 4 0
        ++ (put_le 4 0
            ++ (put_le 4 h.size_of_raw_data
                ++ (put_le 4 h.pointer_to_raw_data
                    ++ (put_le 4 h.pointer_to_relocations
                        ++ (put_le 4 0
                            ++ (put_le 2 h.number_of_relocations
                                ++ (put_le 2 0 ++ put_le 4 h.characteristics))))))))

-- coffReloc
pub record CoffReloc : Type 0 where
  pub virtual_address : ℕ
  pub symbol_table_index : ℕ
  pub typ : ℕ

unfoldable pub encode_reloc : CoffReloc → Bytes
encode_reloc r = put_le 4 r.virtual_address ++ (put_le 4 r.symbol_table_index ++ put_le 2 r.typ)

-- coffSym; the name is 8 bytes, and the section number, an int16, is kept as its 16 bits.
pub record CoffSym : Type 0 where
  pub name : Bytes
  pub value : ℕ
  pub section_number : ℕ
  pub typ : ℕ
  pub storage_class : ℕ
  pub number_of_auxiliary_symbols : ℕ

-- encodeSymbol
unfoldable pub encode_symbol : CoffSym → Bytes
encode_symbol s =
    s.name
    ++ (put_le 4 s.value
        ++ (put_le 2 s.section_number
            ++ (put_le 2 s.typ
                ++ (put_le 1 s.storage_class ++ put_le 1 s.number_of_auxiliary_symbols))))

-- encodeCOMDATAux: the size, the number of relocations, zeros, and the selection at position 14.
unfoldable pub encode_comdat_aux : ℕ → ℕ → Bytes
encode_comdat_aux raw_size n_relocs =
    put_le 4 raw_size
    ++ (put_le 2 n_relocs ++ (replicate 8 0 ++ (comdat_select_any ∷ replicate 3 0)))
