-- ===== src/Coff/Format/Decode.antt =====
-- Readers of the COFF structures, and that they give back what coff/write.go puts out.
use objectfile.Prelude.{
  ℕ, ◌^◌, ◌<◌, ◌≡◌, ◌++◌, arith, length, slice, drop, take, drop-length-append, take-length-append,
  length-append, sym,
}
use objectfile.Prelude.Bytes.{Bytes, put_le, get_le, get_le-put_le}
use objectfile.Coff.Format.{
  FileHdr, encode_file_hdr, SecHdr, encode_sec_hdr, CoffReloc, encode_reloc, CoffSym, encode_symbol,
  encode_comdat_aux,
}

-- A number of `n` bytes at position `i`.
abbrev pub field : ℕ → ℕ → Bytes → ℕ
field i n bytes = get_le (slice i n bytes)

unfoldable pub decode_file_hdr : Bytes → FileHdr
decode_file_hdr b = record {
  machine = field 0 2 b;
  number_of_sections = field 2 2 b;
  pointer_to_symbol_table = field 8 4 b;
  number_of_symbols = field 12 4 b;
}

unfoldable pub decode_reloc : Bytes → CoffReloc
decode_reloc b = record {
  virtual_address = field 0 4 b;
  symbol_table_index = field 4 4 b;
  typ = field 8 2 b;
}

unfoldable pub decode_symbol : Bytes → CoffSym
decode_symbol b = record {
  name = take 8 b;
  value = field 0 4 (drop 8 b);
  section_number = field 4 2 (drop 8 b);
  typ = field 6 2 (drop 8 b);
  storage_class = field 8 1 (drop 8 b);
  number_of_auxiliary_symbols = field 9 1 (drop 8 b);
}

unfoldable pub decode_sec_hdr : Bytes → SecHdr
decode_sec_hdr b = record {
  name = take 8 b;
  size_of_raw_data = field 8 4 (drop 8 b);
  pointer_to_raw_data = field 12 4 (drop 8 b);
  pointer_to_relocations = field 16 4 (drop 8 b);
  number_of_relocations = field 24 2 (drop 8 b);
  characteristics = field 28 4 (drop 8 b);
}

pub record FitsFileHdr (h : FileHdr) : Type 0 where
  pub machine : h.machine < 2 ^ 16
  pub number_of_sections : h.number_of_sections < 2 ^ 16
  pub pointer_to_symbol_table : h.pointer_to_symbol_table < 2 ^ 32
  pub number_of_symbols : h.number_of_symbols < 2 ^ 32

-- A file header whose fields fit is read back, whatever stands behind it.
pub decode_file_hdr-encode_file_hdr :
    (h : FileHdr) (rest : Bytes) → FitsFileHdr h → decode_file_hdr (encode_file_hdr h ++ rest) ≡ h
unfolding decode_file_hdr encode_file_hdr put_le
decode_file_hdr-encode_file_hdr h rest f = λ i. record {
  machine = get_le-put_le 2 h.machine (omega (arith, f.machine)) i;
  number_of_sections = get_le-put_le 2 h.number_of_sections (omega (arith, f.number_of_sections)) i;
  pointer_to_symbol_table =
      get_le-put_le 4 h.pointer_to_symbol_table (omega (arith, f.pointer_to_symbol_table)) i;
  number_of_symbols = get_le-put_le 4 h.number_of_symbols (omega (arith, f.number_of_symbols)) i;
}

pub record FitsReloc (r : CoffReloc) : Type 0 where
  pub virtual_address : r.virtual_address < 2 ^ 32
  pub symbol_table_index : r.symbol_table_index < 2 ^ 32
  pub typ : r.typ < 2 ^ 16

-- A relocation record whose fields fit is read back.
pub decode_reloc-encode_reloc : (r : CoffReloc) → FitsReloc r → decode_reloc (encode_reloc r) ≡ r
unfolding decode_reloc encode_reloc put_le
decode_reloc-encode_reloc r f = λ i. record {
  virtual_address = get_le-put_le 4 r.virtual_address (omega (arith, f.virtual_address)) i;
  symbol_table_index = get_le-put_le 4 r.symbol_table_index (omega (arith, f.symbol_table_index)) i;
  typ = get_le-put_le 2 r.typ (omega (arith, f.typ)) i;
}

pub record FitsSymbol (s : CoffSym) : Type 0 where
  pub name : length s.name ≡ 8
  pub value : s.value < 2 ^ 32
  pub section_number : s.section_number < 2 ^ 16
  pub typ : s.typ < 2 ^ 16
  pub storage_class : s.storage_class < 2 ^ 8
  pub number_of_auxiliary_symbols : s.number_of_auxiliary_symbols < 2 ^ 8

-- The part behind the name.
symbol_tail : CoffSym → Bytes
symbol_tail s =
    put_le 4 s.value
    ++ (put_le 2 s.section_number
        ++ (put_le 2 s.typ ++ (put_le 1 s.storage_class ++ put_le 1 s.number_of_auxiliary_symbols)))

read_symbol_tail :
    (s : CoffSym)
    → FitsSymbol s
    → ◌≡◌ {A = CoffSym}
        (record {
          name = s.name;
          value = field 0 4 (symbol_tail s);
          section_number = field 4 2 (symbol_tail s);
          typ = field 6 2 (symbol_tail s);
          storage_class = field 8 1 (symbol_tail s);
          number_of_auxiliary_symbols = field 9 1 (symbol_tail s);
        })
        s
unfolding symbol_tail put_le
read_symbol_tail s f = λ i. record {
  name = s.name;
  value = get_le-put_le 4 s.value (omega (arith, f.value)) i;
  section_number = get_le-put_le 2 s.section_number (omega (arith, f.section_number)) i;
  typ = get_le-put_le 2 s.typ (omega (arith, f.typ)) i;
  storage_class = get_le-put_le 1 s.storage_class (omega (arith, f.storage_class)) i;
  number_of_auxiliary_symbols =
      get_le-put_le 1 s.number_of_auxiliary_symbols (omega (arith, f.number_of_auxiliary_symbols))
        i;
}

-- A symbol record whose fields fit is read back.
pub decode_symbol-encode_symbol : (s : CoffSym) → FitsSymbol s → decode_symbol (encode_symbol s) ≡ s
unfolding decode_symbol encode_symbol symbol_tail
decode_symbol-encode_symbol s f =
    rw (take-length-append 8 s.name (symbol_tail s) (sym f.name))
      (rw (drop-length-append 8 s.name (symbol_tail s) (sym f.name)) (read_symbol_tail s f))

-- The name field of a record.
pub decode_symbol-name :
    (s : CoffSym) → length s.name ≡ 8 → (decode_symbol (encode_symbol s)).name ≡ s.name
unfolding decode_symbol encode_symbol symbol_tail
decode_symbol-name s h = take-length-append 8 s.name (symbol_tail s) (sym h)

pub record FitsSecHdr (h : SecHdr) : Type 0 where
  pub name : length h.name ≡ 8
  pub size_of_raw_data : h.size_of_raw_data < 2 ^ 32
  pub pointer_to_raw_data : h.pointer_to_raw_data < 2 ^ 32
  pub pointer_to_relocations : h.pointer_to_relocations < 2 ^ 32
  pub number_of_relocations : h.number_of_relocations < 2 ^ 16
  pub characteristics : h.characteristics < 2 ^ 32

sec_hdr_tail : SecHdr → Bytes
sec_hdr_tail h =
    put_le 4 0
    ++ (put_le 4 0
        ++ (put_le 4 h.size_of_raw_data
            ++ (put_le 4 h.pointer_to_raw_data
                ++ (put_le 4 h.pointer_to_relocations
                    ++ (put_le 4 0
                        ++ (put_le 2 h.number_of_relocations
                            ++ (put_le 2 0 ++ put_le 4 h.characteristics)))))))

read_sec_hdr_tail :
    (h : SecHdr)
    → FitsSecHdr h
    → ◌≡◌ {A = SecHdr}
        (record {
          name = h.name;
          size_of_raw_data = field 8 4 (sec_hdr_tail h);
          pointer_to_raw_data = field 12 4 (sec_hdr_tail h);
          pointer_to_relocations = field 16 4 (sec_hdr_tail h);
          number_of_relocations = field 24 2 (sec_hdr_tail h);
          characteristics = field 28 4 (sec_hdr_tail h);
        })
        h
unfolding sec_hdr_tail put_le
read_sec_hdr_tail h f = λ i. record {
  name = h.name;
  size_of_raw_data = get_le-put_le 4 h.size_of_raw_data (omega (arith, f.size_of_raw_data)) i;
  pointer_to_raw_data =
      get_le-put_le 4 h.pointer_to_raw_data (omega (arith, f.pointer_to_raw_data)) i;
  pointer_to_relocations =
      get_le-put_le 4 h.pointer_to_relocations (omega (arith, f.pointer_to_relocations)) i;
  number_of_relocations =
      get_le-put_le 2 h.number_of_relocations (omega (arith, f.number_of_relocations)) i;
  characteristics = get_le-put_le 4 h.characteristics (omega (arith, f.characteristics)) i;
}

-- A section header whose fields fit is read back.
pub decode_sec_hdr-encode_sec_hdr :
    (h : SecHdr) → FitsSecHdr h → decode_sec_hdr (encode_sec_hdr h) ≡ h
unfolding decode_sec_hdr encode_sec_hdr sec_hdr_tail
decode_sec_hdr-encode_sec_hdr h f =
    rw (take-length-append 8 h.name (sec_hdr_tail h) (sym f.name))
      (rw (drop-length-append 8 h.name (sec_hdr_tail h) (sym f.name)) (read_sec_hdr_tail h f))

pub length-encode_file_hdr : (h : FileHdr) → length (encode_file_hdr h) ≡ 20
unfolding encode_file_hdr put_le
length-encode_file_hdr h = omega arith

pub length-encode_reloc : (r : CoffReloc) → length (encode_reloc r) ≡ 10
unfolding encode_reloc put_le
length-encode_reloc r = omega arith

pub length-encode_symbol : (s : CoffSym) → length s.name ≡ 8 → length (encode_symbol s) ≡ 18
unfolding encode_symbol symbol_tail put_le
length-encode_symbol s h = omega (arith, length-append s.name (symbol_tail s))

pub length-encode_sec_hdr : (h : SecHdr) → length h.name ≡ 8 → length (encode_sec_hdr h) ≡ 40
unfolding encode_sec_hdr sec_hdr_tail put_le
length-encode_sec_hdr h e = omega (arith, length-append h.name (sec_hdr_tail h))

pub length-encode_comdat_aux : (n k : ℕ) → length (encode_comdat_aux n k) ≡ 18
unfolding encode_comdat_aux put_le
length-encode_comdat_aux n k = omega arith
