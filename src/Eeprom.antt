-- ===== src/Eeprom.antt =====
-- kmod/ixmap_eeprom.c: the checksum over the words of the EEPROM. `read` stands for
-- `hw->eeprom.ops.read`; `none` is its error, on which the variable that it reads into stays as it
-- is. The variables are `uint16_t`.
pub mod Checksum
pub mod Serial
pub mod Wire
pub mod PbaString
pub mod Pba
pub mod PbaWords
pub mod PbaRead
mod Examples
use ixmap.Base.{
  ℕ, zero, suc, ◌+◌, ◌-◌, ◌%◌, ◌^◌, Bool, true, false, Option, none, some, ◌==◌, ltb, if◌then◌else◌,
  not, ◌&&◌,
}

abbrev pub eeprom_checksum : ℕ
eeprom_checksum = 0x3f

abbrev pub eeprom_sum : ℕ
eeprom_sum = 0xbaba

abbrev pub pcie_analog_ptr : ℕ
pcie_analog_ptr = 0x03

abbrev pub fw_ptr : ℕ
fw_ptr = 0x0f

-- The local variables of ixmap_calc_eeprom_checksum.
pub record Sum : Type 0 where
  pub checksum : ℕ
  pub length : ℕ
  pub pointer : ℕ
  pub word : ℕ

-- `read` into a variable that holds `old`.
abbrev pub read_into : (ℕ → Option ℕ) → ℕ → ℕ → ℕ
read_into read at old = elim (read at) [ none ↦ old | some w ↦ w ]

abbrev pub add_word : Sum → ℕ → Sum
add_word sum w = record sum { checksum = (sum.checksum + w) % 2 ^ 16; word = w }

-- What is not taken for erased or missing.
abbrev pub seems_valid : ℕ → Bool
seems_valid v = not (v == 0xffff) && not (v == 0)

module _ (read : ℕ → Option ℕ) where
  -- The first loop, with `n` rounds to go.
  pub sum_base : ℕ → ℕ → Sum → Sum
  sum_base zero i sum = sum
  sum_base (suc n) i sum = elim (read i) [
    | none ↦ sum
    | some w ↦ sum_base n (suc i) (add_word sum w)
  ]

  -- The loop over `j`, which wraps around: `none` is a loop that does not end within the fuel.
  pub sum_data : ℕ → ℕ → ℕ → Sum → Option Sum
  sum_data zero limit j sum = none
  sum_data (suc fuel) limit j sum =
      if ltb limit j
      then some sum
      else sum_data fuel limit ((j + 1) % 2 ^ 16) (add_word sum (read_into read j sum.word))

  -- One round of the loop over the pointers. 65536 rounds of the inner loop are all that end.
  pub sum_pointer : ℕ → Sum → Option Sum
  sum_pointer i sum =
      let pointed : Sum = record sum { pointer = read_into read i sum.pointer } in
      let measured : Sum = record pointed { length = read_into read pointed.pointer sum.length } in
      let added =
        sum_data 65536 (measured.pointer + measured.length) ((measured.pointer + 1) % 2 ^ 16)
          measured in
      if seems_valid pointed.pointer
      then if seems_valid measured.length then added else some measured
      else some pointed

  pub sum_pointers : ℕ → ℕ → Sum → Option Sum
  sum_pointers zero i sum = some sum
  sum_pointers (suc n) i sum = elim (sum_pointer i sum) [
    | none ↦ none
    | some sum' ↦ sum_pointers n (suc i) sum'
  ]

  pub ixmap_calc_eeprom_checksum : Option ℕ
  ixmap_calc_eeprom_checksum =
      let base =
        sum_base eeprom_checksum 0 (record { checksum = 0; length = 0; pointer = 0; word = 0 }) in
      elim (sum_pointers (fw_ptr - pcie_analog_ptr) pcie_analog_ptr base) [
        | none ↦ none
        | some sum ↦ some ((eeprom_sum + 2 ^ 16 - sum.checksum) % 2 ^ 16)
      ]

-- The status: 0, IXGBE_ERR_EEPROM_CHECKSUM, or the error of `read`.
pub data Status : Type 0 where
  valid mismatch unreadable : Status

-- With the checksum for `checksum_val`, 0 where that is left as it is. `none` is a loop without end.
pub ixmap_validate_eeprom_checksum : (ℕ → Option ℕ) → Option (Status × ℕ)
ixmap_validate_eeprom_checksum read = elim (read 0) [
  | none ↦ some (unreadable, 0)
  | some w ↦ elim (ixmap_calc_eeprom_checksum read) [
    | none ↦ none
    | some checksum ↦
        let stored = read_into read eeprom_checksum 0 in
        some (if stored == checksum then valid else mismatch, checksum)
  ]
]
