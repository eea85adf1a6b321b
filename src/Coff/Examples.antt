-- ===== src/Coff/Examples.antt =====
-- Runs of the COFF code on a call and an address, and the theorems of the results there.
use objectfile.Prelude.{
  ℕ, suc, ◌+◌, ◌-◌, ◌*◌, ◌%◌, ◌^◌, ◌≤◌, ◌<◌, ◌≡◌, refl, some, [], ◌∷◌, length, get_elem?, arith,
  if◌then◌else◌, ◌||◌,
}
use objectfile.Prelude.Bytes.{Bytes, codes, get_le, put_le}
use objectfile.Prelude.Int.{pos, negsuc, int64_bits}
use objectfile.Prelude.Result.{ok}
use objectfile.Object.{
  Reloc, reloc_abs64, reloc_abs32, reloc_plt32, target_windows_amd64, target_windows_arm64,
}
use objectfile.Coff.File.{
  new_file, machine_of, machine_amd64, machine_arm64, reloc_type, type_for_machine, amd64_type,
  arm64_type, rel_amd64_rel32, rel_amd64_addr64, rel_arm64_addr32,
}
use objectfile.Prelude.Table.{lookup}
use objectfile.Prelude.Bytes.{NoNul, bytes_eq}
use objectfile.Prelude.{ap, ◌++◌}
use objectfile.Elf.Strtab.{StrTab, intern}
use objectfile.Elf.Strtab.Reading.{intern_all}
use objectfile.Coff.Strtab.{new_str_tab, table_bytes, encode_sym_name}
use objectfile.Coff.Strtab.Reading.{read_sym_name, read_sym_name-encode_sym_name}
use objectfile.Coff.Sections.{align_flag, clamp_align, shift_loop}
use objectfile.Coff.Sections.Align.{align_flag-log}
use objectfile.Coff.Addends.{
  reloc_addend_size, reloc_addend_size-reloc_type, is_abs64, is_abs32, addend_bytes, addend_bits,
  addend_bytes-rel32, poke, apply_addend, apply_implicit_addends, AllOutside,
  apply_implicit_addends-outside, apply_implicit_addends-field,
}

-- call puts
abbrev call : Bytes
call = 0xe8 ∷ 0 ∷ 0 ∷ 0 ∷ 0 ∷ 0xc3 ∷ []

abbrev call_puts : Reloc
call_puts = record { offset = 1; symbol = codes "puts"; kind = reloc_plt32; addend = negsuc 3 }

abbrev skip_ahead : Reloc
skip_ahead = record call_puts { addend = pos 16 }

-- The addend -4 becomes 0 in the field, and the addend 16 becomes 20.
run_call :
    (apply_implicit_addends call (call_puts ∷ []) (rel_amd64_rel32 ∷ []) machine_amd64 ≡ some call)
    × (apply_implicit_addends call (skip_ahead ∷ []) (rel_amd64_rel32 ∷ []) machine_amd64
        ≡ some (0xe8 ∷ 20 ∷ 0 ∷ 0 ∷ 0 ∷ 0xc3 ∷ []))
unfolding apply_implicit_addends apply_addend poke addend_bytes addend_bits reloc_addend_size
    int64_bits put_le
run_call = (refl, refl)

-- On ARM64 a 32-bit address with the addend 1 overwrites the four bytes behind its field.
run_arm64 :
    apply_implicit_addends
      (0 ∷ 0 ∷ 0 ∷ 0 ∷ 5 ∷ 6 ∷ 7 ∷ 8 ∷ [])
      (record call_puts { offset = 0; kind = reloc_abs32; addend = pos 1 } ∷ [])
      (rel_arm64_addr32 ∷ [])
      machine_arm64
    ≡ some (1 ∷ 0 ∷ 0 ∷ 0 ∷ 0 ∷ 0 ∷ 0 ∷ 0 ∷ [])
unfolding apply_implicit_addends apply_addend poke addend_bytes addend_bits reloc_addend_size
    int64_bits put_le
run_arm64 = refl

run_kinds :
    (reloc_type (new_file target_windows_amd64) reloc_abs64 ≡ ok rel_amd64_addr64)
    × (reloc_type (new_file target_windows_arm64) reloc_abs32 ≡ ok rel_arm64_addr32)
unfolding reloc_type new_file machine_of type_for_machine amd64_type arm64_type
run_kinds = (refl, refl)

run_align : (align_flag 0 ≡ 0x100000) × (align_flag 16 ≡ 0x500000) × (align_flag 65536 ≡ 0xe00000)
unfolding align_flag clamp_align shift_loop
run_align = (refl, refl, refl)

align_flag-log_example :
    (s : ℕ) × (align_flag 24 ≡ (s + 1) * 2 ^ 20)
    × (2 ^ s ≤ clamp_align 24)
    × (clamp_align 24 < 2 ^ suc s)
    × (s ≤ 13)
align_flag-log_example = align_flag-log 24

reloc_addend_size-reloc_type_example :
    ((new_file target_windows_arm64).machine ≡ machine_amd64
      → reloc_addend_size rel_arm64_addr32 ≡ (if is_abs64 reloc_abs32 then 8 else 4))
    × ((new_file target_windows_arm64).machine ≡ machine_arm64
        → reloc_addend_size rel_arm64_addr32
          ≡ (if is_abs64 reloc_abs32 || is_abs32 reloc_abs32 then 8 else 4))
reloc_addend_size-reloc_type_example =
    reloc_addend_size-reloc_type (new_file target_windows_arm64) reloc_abs32 rel_arm64_addr32
      run_kinds.1

addend_bytes-rel32_example :
    (5000 + get_le (addend_bytes machine_amd64 call_puts rel_amd64_rel32) + (2 ^ 32 - (100 + 4)))
      % 2 ^ 32
    ≡ (5000 + int64_bits call_puts.addend + (2 ^ 32 - 100)) % 2 ^ 32
addend_bytes-rel32_example = addend_bytes-rel32 call_puts 5000 100 (omega arith)

apply_implicit_addends-outside_example :
    (out : Bytes) × (apply_implicit_addends call
        (call_puts ∷ [])
        (rel_amd64_rel32 ∷ [])
        machine_amd64
      ≡ some out)
    × (length out ≡ length call)
    × ((i : ℕ)
        → AllOutside (call_puts ∷ []) (rel_amd64_rel32 ∷ []) i
        → get_elem? out i ≡ get_elem? call i)
apply_implicit_addends-outside_example =
    apply_implicit_addends-outside (call_puts ∷ []) (rel_amd64_rel32 ∷ []) machine_amd64 call refl

rel32_size : reloc_addend_size rel_amd64_rel32 ≡ 4
unfolding reloc_addend_size
rel32_size = refl

apply_implicit_addends-field_example :
    (out : Bytes) × (apply_implicit_addends call
        (call_puts ∷ skip_ahead ∷ [])
        (rel_amd64_rel32 ∷ rel_amd64_rel32 ∷ [])
        machine_amd64
      ≡ some out)
    × (get_elem? out 1 ≡ get_elem? (addend_bytes machine_amd64 skip_ahead rel_amd64_rel32) 0)
apply_implicit_addends-field_example =
    apply_implicit_addends-field (call_puts ∷ []) (rel_amd64_rel32 ∷ []) skip_ahead rel_amd64_rel32
      [] [] machine_amd64 call 0 refl refl (omega (arith, rel32_size)) (omega (arith, rel32_size))
      tt

abbrev long_name : Bytes
long_name = codes "initialize"

abbrev encoded_long : StrTab × Bytes
encoded_long = encode_sym_name (intern_all (codes "exit_process" ∷ []) new_str_tab) long_name

-- A short name stands in the field, a long one behind the string that is there.
run_names :
    ((encode_sym_name new_str_tab (codes "main")).1 ≡ codes "main" ++ (0 ∷ 0 ∷ 0 ∷ 0 ∷ []))
    × (encoded_long.1 ≡ 0 ∷ 0 ∷ 0 ∷ 0 ∷ 17 ∷ 0 ∷ 0 ∷ 0 ∷ [])
    × (length (intern_all [] encoded_long.0).payload ≡ 24)
unfolding encode_sym_name intern lookup bytes_eq put_le
run_names = (refl, refl, refl)

long_name-clean : NoNul long_name
long_name-clean = ground arith

read_sym_name-encode_sym_name_example :
    read_sym_name (table_bytes (intern_all [] encoded_long.0)) encoded_long.1 ≡ long_name
read_sym_name-encode_sym_name_example =
    read_sym_name-encode_sym_name (codes "exit_process" ∷ []) [] long_name long_name-clean
      (λ e. ground (arith, ap length e)) (omega (arith, run_names.2))
