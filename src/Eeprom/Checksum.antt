-- ===== src/Eeprom/Checksum.antt =====
-- The checksum of kmod/ixmap_eeprom.c against the sum of the words that it covers.
use ixmap.Base.{
  Bool, ℕ, zero, suc, ◌+◌, ◌-◌, ◌%◌, ◌^◌, ◌≤◌, ◌<◌, ◌≡◌, ◌↔◌, refl, ◌∙◌, true, false, Option, some,
  arith, ◌==◌, ==_iff, ltb, if◌then◌else◌, Bool-cases, inl, inr,
}
use ixmap.Eeprom.{
  Sum, eeprom_checksum, eeprom_sum, pcie_analog_ptr, fw_ptr, seems_valid, add_word, sum_base,
  sum_data, sum_pointer, sum_pointers, ixmap_calc_eeprom_checksum, Status, valid, mismatch,
  ixmap_validate_eeprom_checksum,
}

-- The sum of `n` words from `i` on.
abbrev pub word_total : (ℕ → ℕ) → ℕ → ℕ → ℕ
word_total w zero i = 0
word_total w (suc n) i = w i + word_total w n (suc i)

-- Whether a word is neither that of an erased EEPROM nor 0.
abbrev pub points : ℕ → Bool
points v = if v == 0 then false else if v == 0xffff then false else true

seems_valid-points : (v : ℕ) → seems_valid v ≡ points v
seems_valid-points v = ground arith

-- The sum of the data that the word at `i` points to, if it does.
abbrev pub pointed_total : (ℕ → ℕ) → ℕ → ℕ
pointed_total w i =
    if points (w i) then if points (w (w i)) then word_total w (w (w i)) (w i + 1) else 0 else 0

abbrev pub pointers_total : (ℕ → ℕ) → ℕ → ℕ → ℕ
pointers_total w zero i = 0
pointers_total w (suc n) i = pointed_total w i + pointers_total w n (suc i)

-- The checksum that is right completes the sum to 0xbaba.
completes :
    (base pointed stored first all : ℕ)
    → stored < 2 ^ 16
    → first ≡ (0 + base) % 2 ^ 16
    → all ≡ (first + pointed) % 2 ^ 16
    → (stored ≡ (eeprom_sum + 2 ^ 16 - all) % 2 ^ 16)
      ↔ ((base + pointed + stored) % 2 ^ 16 ≡ eeprom_sum)
completes base pointed stored first all h e₁ e₂ = (λ e. omega arith, λ e. omega arith)

verdict :
    (stored right : ℕ) → ((if stored == right then valid else mismatch) ≡ valid) ↔ (stored ≡ right)
verdict stored right = elim (Bool-cases (stored == right)) [
  | inl same ↦ rw same (λ _. (==_iff stored right).0 same, λ _. refl)
  | inr different ↦ rw different (λ e. absurd (ground arith), λ e. absurd (ground arith))
]

module _ (w : ℕ → ℕ) where
  abbrev pub reads : ℕ → Option ℕ
  reads i = some (w i)

  sum_base-eq :
      (n i : ℕ) (sum : Sum)
      → sum.checksum < 2 ^ 16
      → (sum_base reads n i sum).checksum ≡ (sum.checksum + word_total w n i) % 2 ^ 16
  unfolding sum_base
  sum_base-eq zero i sum h = omega arith
  sum_base-eq (suc n) i sum h =
      sum_base-eq n (suc i) (add_word sum (w i)) (omega arith) ∙ omega arith

  -- What a part of the sum adds.
  abbrev Adds : Sum → ℕ → Option Sum → Type 0
  Adds sum total result =
      (sum' : Sum) × (result ≡ some sum') × (sum'.checksum ≡ (sum.checksum + total) % 2 ^ 16)

  sum_data-Adds :
      (n fuel limit j : ℕ) (sum : Sum)
      → n < fuel
      → limit + 1 ≡ j + n
      → j + n < 2 ^ 16
      → sum.checksum < 2 ^ 16
      → Adds sum (word_total w n j) (sum_data reads fuel limit j sum)
  unfolding sum_data
  sum_data-Adds n zero limit j sum h e b c = absurd (omega arith)
  sum_data-Adds zero (suc fuel) limit j sum h e b c =
      let done : ltb limit j ≡ true = ground arith in rw done (sum, refl, omega arith)
  sum_data-Adds (suc n) (suc fuel) limit j sum h e b c =
      let more : ltb limit j ≡ false = ground arith in
      let next : (j + 1) % 2 ^ 16 ≡ suc j = omega arith in
      let (sum', run, total) =
        sum_data-Adds n fuel limit (suc j) (add_word sum (w j)) (omega arith) (omega arith)
          (omega arith) (omega arith) in
      rw (more, next) (sum', run, total ∙ omega arith)

  -- The data that the word at `i` points to ends before the last word that a `uint16_t` counts.
  abbrev pub Ends : ℕ → Type 0
  Ends i = points (w i) ≡ true → points (w (w i)) ≡ true → w i + w (w i) < 0xffff

  sum_pointer-Adds :
      (i : ℕ) (sum : Sum)
      → Ends i
      → sum.checksum < 2 ^ 16
      → Adds sum (pointed_total w i) (sum_pointer reads i sum)
  unfolding sum_pointer
  sum_pointer-Adds i sum ends c =
      let pointed : Sum = record sum { pointer = w i } in
      let measured : Sum = record pointed { length = w (w i) } in
      let first = seems_valid-points (w i) in
      let second = seems_valid-points (w (w i)) in
      elim (Bool-cases (points (w i))) [
        | inr missing ↦ rw (first, missing) (pointed, refl, omega arith)
        | inl there ↦ elim (Bool-cases (points (w (w i)))) [
          | inr empty ↦ rw (first, second, there, empty) (measured, refl, omega arith)
          | inl filled ↦
              let bound = ends there filled in
              let next : (w i + 1) % 2 ^ 16 ≡ w i + 1 = omega arith in
              rw (first, second, there, filled, next)
                (sum_data-Adds (w (w i)) 65536 (w i + w (w i)) (w i + 1) measured (omega arith)
                  (omega arith) (omega arith) c)
        ]
      ]

  sum_pointers-Adds :
      (n i : ℕ) (sum : Sum)
      → ((k : ℕ) → i ≤ k → k < i + n → Ends k)
      → sum.checksum < 2 ^ 16
      → Adds sum (pointers_total w n i) (sum_pointers reads n i sum)
  unfolding sum_pointers
  sum_pointers-Adds zero i sum ends c = (sum, refl, omega arith)
  sum_pointers-Adds (suc n) i sum ends c =
      let (sum₁, run₁, total₁) = sum_pointer-Adds i sum (ends i (omega arith) (omega arith)) c in
      let (sum₂, run₂, total₂) =
        sum_pointers-Adds n (suc i) sum₁ (λ k lo hi. ends k (omega arith) (omega arith))
          (omega arith) in
      rw (sum_pointers, run₁) (sum₂, run₂, omega arith)

  -- If every word can be read and fits 16 bits, and the data behind each pointer ends before word
  -- 0xffff, ixmap_validate_eeprom_checksum ends, and it accepts the EEPROM exactly if all covered
  -- words and the stored checksum add up to 0xbaba in 16 bits.
  pub ixmap_validate_eeprom_checksum-valid :
      ((i : ℕ) → w i < 2 ^ 16)
      → ((i : ℕ) → pcie_analog_ptr ≤ i → i < fw_ptr → Ends i)
      → (status : Status) × (checksum : ℕ) × (ixmap_validate_eeprom_checksum reads
          ≡ some (status, checksum))
        × ((status ≡ valid) ↔ (
            (word_total w eeprom_checksum 0
                + pointers_total w (fw_ptr - pcie_analog_ptr) pcie_analog_ptr
                + w eeprom_checksum)
              % 2 ^ 16
            ≡ eeprom_sum))
  unfolding ixmap_validate_eeprom_checksum ixmap_calc_eeprom_checksum
  ixmap_validate_eeprom_checksum-valid small ends =
      let start : Sum = record { checksum = 0; length = 0; pointer = 0; word = 0 } in
      let base = sum_base reads eeprom_checksum 0 start in
      let base_total = sum_base-eq eeprom_checksum 0 start (omega arith) in
      let (sum, run, total) =
        sum_pointers-Adds (fw_ptr - pcie_analog_ptr) pcie_analog_ptr base (λ k lo hi. ends k lo hi)
          (omega (arith, base_total)) in
      let (to, from) =
        verdict (w eeprom_checksum) ((eeprom_sum + 2 ^ 16 - sum.checksum) % 2 ^ 16) in
      let (to', from') =
        completes (word_total w eeprom_checksum 0)
          (pointers_total w (fw_ptr - pcie_analog_ptr) pcie_analog_ptr) (w eeprom_checksum)
          base.checksum sum.checksum (small eeprom_checksum) base_total total in
      rw (ixmap_validate_eeprom_checksum, ixmap_calc_eeprom_checksum, run)
        (_, _, refl, (λ v. to' (to v), λ e. from (from' e)))
