-- ===== src/Eeprom/Serial.antt =====
-- kmod/ixmap_eeprom.c: bits to and from the EEPROM by way of the register EEC. What is written to
-- the register is listed, the first first; what reading it answers while the clock is high is a list.
use ixmap.Base.{
  ℕ, zero, suc, ◌-◌, ◌*◌, ◌/◌, ◌%◌, ◌^◌, List, [], ◌∷◌, ◌==◌, if◌then◌else◌, bit_and, bit_or,
}
use ixmap.Hw.{clear_bits}

-- IXGBE_EEC_SK, IXGBE_EEC_DI and IXGBE_EEC_DO.
abbrev pub eec_sk : ℕ
eec_sk = 0x1

abbrev pub eec_di : ℕ
eec_di = 0x4

abbrev pub eec_do : ℕ
eec_do = 0x8

-- The register's value once the clock is raised, and lowered.
abbrev pub ixmap_raise_eeprom_clk : ℕ → ℕ
ixmap_raise_eeprom_clk eec = bit_or eec eec_sk

abbrev pub ixmap_lower_eeprom_clk : ℕ → ℕ
ixmap_lower_eeprom_clk eec = clear_bits eec eec_sk

-- The loop of ixmap_shift_out_eeprom_bits, with `n` bits to go: what it writes.
unfoldable pub shift_out_loop : ℕ → ℕ → ℕ → ℕ → List ℕ
shift_out_loop word zero mask eec = clear_bits eec eec_di ∷ []
shift_out_loop word (suc n) mask eec =
    let set = if bit_and word mask == 0 then clear_bits eec eec_di else bit_or eec eec_di in
    let raised = ixmap_raise_eeprom_clk set in
    let lowered = ixmap_lower_eeprom_clk raised in
    set ∷ raised ∷ lowered ∷ shift_out_loop word n (mask / 2) lowered

-- `eec` is the register as it is read at first.
unfoldable pub ixmap_shift_out_eeprom_bits : ℕ → ℕ → ℕ → List ℕ
ixmap_shift_out_eeprom_bits word count eec = shift_out_loop word count (2 ^ (count - 1)) eec

-- The next of the answers; the hardware has no more: 0.
abbrev pub next_read : List ℕ → ℕ × List ℕ
next_read [] = (0, [])
next_read (value ∷ reads) = (value, reads)

-- The loop of ixmap_shift_in_eeprom_bits, with `n` bits to go: the word, and what it writes.
unfoldable pub shift_in_loop : ℕ → List ℕ → ℕ → ℕ → ℕ × List ℕ
shift_in_loop zero reads eec word = (word, [])
shift_in_loop (suc n) reads eec word =
    let raised = ixmap_raise_eeprom_clk eec in
    let read = clear_bits (next_read reads).0 eec_di in
    let doubled = word * 2 % 2 ^ 16 in
    let more = if bit_and read eec_do == 0 then doubled else bit_or doubled 1 in
    let lowered = ixmap_lower_eeprom_clk read in
    let (result, writes) = shift_in_loop n (next_read reads).1 lowered more in
    (result, raised ∷ lowered ∷ writes)

unfoldable pub ixmap_shift_in_eeprom_bits : ℕ → List ℕ → ℕ → ℕ × List ℕ
ixmap_shift_in_eeprom_bits count reads eec =
    shift_in_loop count reads (clear_bits eec (bit_or eec_do eec_di)) 0
