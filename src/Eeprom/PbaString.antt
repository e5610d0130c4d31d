-- ===== src/Eeprom/PbaString.antt =====
-- kmod/ixmap_eeprom.c: the part number that ixmap_read_pba_string puts into a buffer. `read` stands
-- for `hw->eeprom.ops.read`, `none` is its error. An access past the buffer's end is `none`.
use ixmap.Base.{
  ℕ, zero, suc, ◌+◌, ◌-◌, ◌*◌, ◌/◌, ◌%◌, ◌^◌, List, [], ◌∷◌, ◌||◌, ◌==◌, ltb, if◌then◌else◌, Option,
  none, some, get_elem?, bit_and,
}

pub data PbaStatus : Type 0 where
  pba_done : PbaStatus
  pba_invalid_argument : PbaStatus
  pba_unread : PbaStatus
  pba_no_space : PbaStatus
  pba_section : PbaStatus

abbrev pub pbanum_ptr_guard : ℕ
pbanum_ptr_guard = 0xfafa

abbrev pub pbanum0_ptr : ℕ
pbanum0_ptr = 0x15

abbrev pub pbanum1_ptr : ℕ
pbanum1_ptr = 0x16

-- `buffer[i] = value`.
unfoldable pub write_at : List ℕ → ℕ → ℕ → Option (List ℕ)
write_at [] i value = none
write_at (x ∷ buffer) zero value = some (value ∷ buffer)
write_at (x ∷ buffer) (suc i) value = elim (write_at buffer i value) [
  | none ↦ none
  | some written ↦ some (x ∷ written)
]

-- The values, from the index `i` on.
unfoldable pub write_all : List ℕ → ℕ → List ℕ → Option (List ℕ)
write_all [] i buffer = some buffer
write_all (value ∷ values) i buffer = elim (write_at buffer i value) [
  | none ↦ none
  | some written ↦ write_all values (suc i) written
]

-- Four bits of a word.
abbrev pub nibble : ℕ → ℕ → ℕ
nibble word k = bit_and (word / 2 ^ k) 0xf

-- The eleven bytes of the old format before they become characters.
abbrev pub legacy_bytes : ℕ → ℕ → List ℕ
legacy_bytes word ptr =
    nibble word 12
    ∷ nibble word 8
    ∷ nibble word 4
    ∷ nibble word 0
    ∷ nibble ptr 12
    ∷ nibble ptr 8
    ∷ 0x2d
    ∷ 0
    ∷ nibble ptr 4
    ∷ nibble ptr 0
    ∷ []

abbrev pub hex_char : ℕ → ℕ
hex_char v = if ltb v 0xa then v + 0x30 else if ltb v 0x10 then v + 0x41 - 0xa else v

-- The loop that switches the bytes to characters, with `n` to go.
unfoldable pub hex_loop : ℕ → ℕ → List ℕ → Option (List ℕ)
hex_loop zero offset buffer = some buffer
hex_loop (suc n) offset buffer = elim (get_elem? buffer offset) [
  | none ↦ none
  | some v ↦ elim (write_at buffer offset (hex_char v)) [
    | none ↦ none
    | some written ↦ hex_loop n (suc offset) written
  ]
]

-- The old format.
unfoldable pub read_legacy : ℕ → ℕ → List ℕ → ℕ → Option (PbaStatus × List ℕ)
read_legacy word ptr buffer size =
    if ltb size 11
    then some (pba_no_space, buffer)
    else elim (write_all (legacy_bytes word ptr) 0 buffer) [
      | none ↦ none
      | some bytes ↦ elim (write_at bytes 10 0) [
        | none ↦ none
        | some ended ↦ elim (hex_loop 10 0 ended) [
          | none ↦ none
          | some chars ↦ some (pba_done, chars)
        ]
      ]
    ]

module _ (read : ℕ → Option ℕ) where
  -- The loop over the words of the section, with `n` to go, and the 0 behind it.
  unfoldable pub words_loop : ℕ → ℕ → ℕ → List ℕ → Option (PbaStatus × List ℕ)
  words_loop zero ptr offset buffer = elim (write_at buffer (offset * 2) 0) [
    | none ↦ none
    | some ended ↦ some (pba_done, ended)
  ]
  words_loop (suc n) ptr offset buffer = elim (read ((ptr + offset) % 2 ^ 16)) [
    | none ↦ some (pba_unread, buffer)
    | some word ↦ elim (write_at buffer (offset * 2) (word / 2 ^ 8 % 2 ^ 8)) [
      | none ↦ none
      | some high ↦ elim (write_at high (offset * 2 + 1) (bit_and word 0xff)) [
        | none ↦ none
        | some low ↦ words_loop n ptr (suc offset) low
      ]
    ]
  ]

  -- The format with a section of its own.
  unfoldable pub read_section : ℕ → List ℕ → ℕ → Option (PbaStatus × List ℕ)
  read_section ptr buffer size = elim (read ptr) [
    | none ↦ some (pba_unread, buffer)
    | some count ↦
        if count == 0xffff || count == 0
        then some (pba_section, buffer)
        else if ltb size (count * 2 - 1)
        then some (pba_no_space, buffer)
        else words_loop (count - 1) ((ptr + 1) % 2 ^ 16) 0 buffer
  ]

  -- A buffer that is `none` is NULL.
  unfoldable pub ixmap_read_pba_string : Option (List ℕ) → ℕ → Option (PbaStatus × List ℕ)
  ixmap_read_pba_string none size = some (pba_invalid_argument, [])
  ixmap_read_pba_string (some buffer) size = elim (read pbanum0_ptr) [
    | none ↦ some (pba_unread, buffer)
    | some word ↦ elim (read pbanum1_ptr) [
      | none ↦ some (pba_unread, buffer)
      | some ptr ↦
          if word == pbanum_ptr_guard
          then read_section ptr buffer size
          else read_legacy word ptr buffer size
    ]
  ]
