-- ===== src/Eeprom/Examples.antt =====
-- kmod/ixmap_eeprom.c on concrete EEPROMs: one with one pointer, one with a part number.
use ixmap.Base.{
  Option, List, [], ◌∷◌, ℕ, ◌+◌, ◌%◌, ◌^◌, ◌<◌, ◌≤◌, ◌≡◌, ◌↔◌, refl, none, some, arith, ◌==◌,
  if◌then◌else◌,
}
use ixmap.Eeprom.{
  Status, valid, unreadable, pcie_analog_ptr, fw_ptr, sum_base, sum_data, sum_pointer, sum_pointers,
  ixmap_calc_eeprom_checksum, ixmap_validate_eeprom_checksum,
}
use ixmap.Eeprom.Serial.{shift_out_loop, ixmap_shift_out_eeprom_bits, ixmap_shift_in_eeprom_bits}
use ixmap.Eeprom.PbaString.{
  pba_done, pba_no_space, write_at, words_loop, read_section, ixmap_read_pba_string,
}
use ixmap.Eeprom.PbaRead.{pba_text, Outcome, ixmap_read_pba_string-Outcome}
use ixmap.Eeprom.Wire.{sampled, digits_down, ixmap_shift_in_eeprom_bits-sampled}
use ixmap.Eeprom.Checksum.{
  word_total, pointers_total, reads, Ends, ixmap_validate_eeprom_checksum-valid,
}

-- Word 3 points to the two words 0x51 and 0x52.
abbrev words : ℕ → ℕ
words i =
    if i == 0x03
    then 0x50
    else if i == 0x3f
    then 0xba5a
    else if i == 0x50
    then 2
    else if i == 0x51
    then 7
    else if i == 0x52
    then 9
    else 0

words_fit : (i : ℕ) → words i < 2 ^ 16
words_fit i = ground arith

words-Ends : (i : ℕ) → pcie_analog_ptr ≤ i → i < fw_ptr → Ends words i
words-Ends i lo hi there filled = ground arith

ixmap_validate_eeprom_checksum-valid_example :
    (status : Status) × (checksum : ℕ) × (ixmap_validate_eeprom_checksum (reads words)
      ≡ some (status, checksum))
    × ((status ≡ valid)
        ↔ ((word_total words 63 0 + pointers_total words 12 3 + 0xba5a) % 2 ^ 16 ≡ 0xbaba))
ixmap_validate_eeprom_checksum-valid_example =
    ixmap_validate_eeprom_checksum-valid words words_fit words-Ends

accepted_run : ixmap_validate_eeprom_checksum (reads words) ≡ some (valid, 0xba5a)
unfolding ixmap_validate_eeprom_checksum ixmap_calc_eeprom_checksum sum_base sum_pointers
    sum_pointer sum_data
accepted_run = refl

unreadable_run : ixmap_validate_eeprom_checksum (λ i. none) ≡ some (unreadable, 0)
unfolding ixmap_validate_eeprom_checksum
unreadable_run = refl

-- The register while the clock is high: DO is bit 3, and the answers are those to 0b1011.
abbrev answers : List ℕ
answers = 0x9 ∷ 0x1 ∷ 0x9 ∷ 0x9 ∷ []

ixmap_shift_in_eeprom_bits-sampled_example :
    (sampled 0 (ixmap_shift_out_eeprom_bits 11 4 0x102) ≡ digits_down 11 4)
    × ((ixmap_shift_in_eeprom_bits 4 answers 0x10c).0 ≡ 11)
unfolding ixmap_shift_out_eeprom_bits ixmap_shift_in_eeprom_bits shift_out_loop sampled
ixmap_shift_in_eeprom_bits-sampled_example =
    ixmap_shift_in_eeprom_bits-sampled 11 4 0x102 0x10c answers refl (omega arith) (omega arith)
      refl refl

-- A section of two words at 0x30: its length, and the characters AB.
abbrev part_words : ℕ → Option ℕ
part_words i =
    if i == 0x15
    then some 0xfafa
    else if i == 0x16
    then some 0x30
    else if i == 0x30
    then some 2
    else if i == 0x31
    then some 0x4142
    else none

abbrev part_buffer : List ℕ
part_buffer = 9 ∷ 9 ∷ 9 ∷ 9 ∷ []

ixmap_read_pba_string-Outcome_example :
    Outcome
      (pba_text part_words)
      part_buffer
      3
      (ixmap_read_pba_string part_words (some part_buffer) 3)
ixmap_read_pba_string-Outcome_example =
    ixmap_read_pba_string-Outcome part_words part_buffer 3 (omega arith)

part_run :
    ixmap_read_pba_string part_words (some part_buffer) 3
    ≡ some (pba_done, 0x41 ∷ 0x42 ∷ 0 ∷ 9 ∷ [])
unfolding ixmap_read_pba_string read_section words_loop write_at
part_run = refl

part_too_long :
    ixmap_read_pba_string part_words (some part_buffer) 2 ≡ some (pba_no_space, part_buffer)
unfolding ixmap_read_pba_string read_section
part_too_long = refl
