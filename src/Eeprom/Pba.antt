-- ===== src/Eeprom/Pba.antt =====
-- kmod/ixmap_eeprom.c: the part number is read in full, and within the buffer.
use ixmap.Base.{
  ℕ, zero, suc, ◌+◌, ◌≤◌, ◌≡◌, refl, sym, ap, ◌∙◌, List, [], ◌∷◌, ◌++◌, map, append_assoc, length,
  get_elem?, get_or, ◌%◌, ◌/◌, ◌^◌, ◌<◌, bit_and-fifteen, false, ltb, Option, none, some, arith,
}
use ixmap.Eeprom.PbaString.{
  pba_done, write_at, write_all, nibble, legacy_bytes, hex_char, hex_loop, read_legacy,
}

-- The first `n` elements and the others.
pub split_list :
    (n : ℕ) (xs : List ℕ)
    → n ≤ length xs
    → (front : List ℕ) × (back : List ℕ) × (xs ≡ front ++ back) × (length front ≡ n)
split_list zero xs h = ([], xs, refl, refl)
split_list (suc n) [] h = absurd (omega arith)
split_list (suc n) (x ∷ xs) h =
    let (front, back, e, l) = split_list n xs (omega arith) in
    (x ∷ front, back, ap (λ ys. x ∷ ys) e, ap suc l)

pub write_at-append :
    (front : List ℕ) (x : ℕ) (back : List ℕ) (i value : ℕ)
    → i ≡ length front
    → write_at (front ++ (x ∷ back)) i value ≡ some (front ++ (value ∷ back))
unfolding write_at
write_at-append [] x back i value e = rw e refl
write_at-append (y ∷ front) x back i value e =
    rw (e, write_at-append front x back (length front) value refl) refl

get_elem?-append :
    (front : List ℕ) (x : ℕ) (back : List ℕ) (i : ℕ)
    → i ≡ length front
    → get_elem? (front ++ (x ∷ back)) i ≡ some x
get_elem?-append [] x back i e = rw e refl
get_elem?-append (y ∷ front) x back i e = rw e (get_elem?-append front x back (length front) refl)

length-snoc : (front : List ℕ) (x : ℕ) → length (front ++ (x ∷ [])) ≡ suc (length front)
length-snoc [] x = refl
length-snoc (y ∷ front) x = ap suc (length-snoc front x)

pub length-append : (xs ys : List ℕ) → length (xs ++ ys) ≡ length xs + length ys
length-append [] ys = omega arith
length-append (x ∷ xs) ys = rw (length-append xs ys) (omega arith)

write_all-append :
    (values front old back : List ℕ) (i : ℕ)
    → i ≡ length front
    → length old ≡ length values
    → write_all values i (front ++ (old ++ back)) ≡ some (front ++ (values ++ back))
unfolding write_all
write_all-append [] front [] back i e l = refl
write_all-append [] front (x ∷ old) back i e l = absurd (omega arith)
write_all-append (v ∷ values) front [] back i e l = absurd (omega arith)
write_all-append (v ∷ values) front (x ∷ old) back i e l =
    let after = front ++ (v ∷ []) in
    let next : front ++ (v ∷ (old ++ back)) ≡ after ++ (old ++ back) =
      sym (append_assoc front (v ∷ []) (old ++ back)) in
    ap (λ (o : Option (List ℕ)). elim o [ none ↦ none | some w ↦ write_all values (suc i) w ])
      (write_at-append front x (old ++ back) i v e)
    ∙ ap (write_all values (suc i)) next
    ∙ write_all-append values after old back (suc i) (ap suc e ∙ sym (length-snoc front v))
        (omega arith)
    ∙ ap some (append_assoc front (v ∷ []) (values ++ back))

hex_loop-append :
    (bytes front back : List ℕ) (i : ℕ)
    → i ≡ length front
    → hex_loop (length bytes) i (front ++ (bytes ++ back))
      ≡ some (front ++ (map hex_char bytes ++ back))
unfolding hex_loop
hex_loop-append [] front back i e = refl
hex_loop-append (b ∷ bytes) front back i e =
    let after = front ++ (hex_char b ∷ []) in
    let buffer = front ++ (b ∷ (bytes ++ back)) in
    let n = length bytes in
    let next : front ++ (hex_char b ∷ (bytes ++ back)) ≡ after ++ (bytes ++ back) =
      sym (append_assoc front (hex_char b ∷ []) (bytes ++ back)) in
    ap
      (λ (o : Option ℕ). elim o [
        | none ↦ none
        | some v ↦ elim (write_at buffer i (hex_char v)) [
          | none ↦ none
          | some w ↦ hex_loop n (suc i) w
        ]
      ])
      (get_elem?-append front b (bytes ++ back) i e)
    ∙ ap (λ (o : Option (List ℕ)). elim o [ none ↦ none | some w ↦ hex_loop n (suc i) w ])
        (write_at-append front b (bytes ++ back) i (hex_char b) e)
    ∙ ap (hex_loop n (suc i)) next
    ∙ hex_loop-append bytes after back (suc i) (ap suc e ∙ sym (length-snoc front (hex_char b)))
    ∙ ap some (append_assoc front (hex_char b ∷ []) (map hex_char bytes ++ back))

-- The characters 0 to 9 and A to F.
abbrev pub hex_digits : List ℕ
hex_digits =
    0x30 ∷ 0x31 ∷ 0x32 ∷ 0x33 ∷ 0x34 ∷ 0x35 ∷ 0x36 ∷ 0x37 ∷ 0x38 ∷ 0x39 ∷ 0x41 ∷ 0x42 ∷ 0x43 ∷ 0x44
    ∷ 0x45 ∷ 0x46 ∷ []

abbrev pub digit_text : ℕ → ℕ
digit_text v = get_or hex_digits (v % 16) 0

-- The text of the old format: the six hexadecimal digits XXXXXX and two more YY as XXXXXX-0YY.
abbrev pub legacy_text : ℕ → ℕ → List ℕ
legacy_text word ptr =
    digit_text (word / 4096)
    ∷ digit_text (word / 256)
    ∷ digit_text (word / 16)
    ∷ digit_text word
    ∷ digit_text (ptr / 4096)
    ∷ digit_text (ptr / 256)
    ∷ 0x2d
    ∷ 0x30
    ∷ digit_text (ptr / 16)
    ∷ digit_text ptr
    ∷ 0
    ∷ []

hex_char-digit : (v : ℕ) → v < 16 → hex_char v ≡ get_or hex_digits v 0
hex_char-digit zero h = refl
hex_char-digit (suc zero) h = refl
hex_char-digit (suc (suc zero)) h = refl
hex_char-digit (suc (suc (suc zero))) h = refl
hex_char-digit (suc (suc (suc (suc zero)))) h = refl
hex_char-digit (suc (suc (suc (suc (suc zero))))) h = refl
hex_char-digit (suc (suc (suc (suc (suc (suc zero)))))) h = refl
hex_char-digit (suc (suc (suc (suc (suc (suc (suc zero))))))) h = refl
hex_char-digit (suc (suc (suc (suc (suc (suc (suc (suc zero)))))))) h = refl
hex_char-digit (suc (suc (suc (suc (suc (suc (suc (suc (suc zero))))))))) h = refl
hex_char-digit (suc (suc (suc (suc (suc (suc (suc (suc (suc (suc zero)))))))))) h = refl
hex_char-digit (suc (suc (suc (suc (suc (suc (suc (suc (suc (suc (suc zero))))))))))) h = refl
hex_char-digit (suc (suc (suc (suc (suc (suc (suc (suc (suc (suc (suc (suc zero)))))))))))) h = refl
hex_char-digit (suc (suc (suc (suc (suc (suc (suc (suc (suc (suc (suc (suc (suc zero)))))))))))))
      h =
    refl
hex_char-digit
      (suc (suc (suc (suc (suc (suc (suc (suc (suc (suc (suc (suc (suc (suc zero)))))))))))))) h =
    refl
hex_char-digit
      (suc (suc (suc (suc (suc (suc (suc (suc (suc (suc (suc (suc (suc (suc (suc zero)))))))))))))))
      h =
    refl
hex_char-digit
      (suc
        (suc (suc (suc (suc (suc (suc (suc (suc (suc (suc (suc (suc (suc (suc (suc v))))))))))))))))
      h =
    absurd (omega arith)

hex_char-nibble : (word k : ℕ) → hex_char (nibble word k) ≡ digit_text (word / 2 ^ k)
hex_char-nibble word k =
    ap hex_char (bit_and-fifteen (word / 2 ^ k)) ∙ hex_char-digit (word / 2 ^ k % 16) (omega arith)

legacy_text-eq :
    (word ptr : ℕ) → map hex_char (legacy_bytes word ptr) ++ 0 ∷ [] ≡ legacy_text word ptr
legacy_text-eq word ptr =
    let whole : (w : ℕ) → hex_char (nibble w 0) ≡ digit_text w =
      λ w. let plain : w / 1 ≡ w = omega arith in hex_char-nibble w 0 ∙ ap digit_text plain in
    rw
      (
        hex_char-nibble word 12,
        hex_char-nibble word 8,
        hex_char-nibble word 4,
        whole word,
        hex_char-nibble ptr 12,
        hex_char-nibble ptr 8,
        hex_char-nibble ptr 4,
        whole ptr,
      )
      refl

-- The writes of the old format, over eleven bytes.
pub read_legacy-append :
    (word ptr x : ℕ) (old back : List ℕ) (size : ℕ)
    → ltb size 11 ≡ false
    → length old ≡ 10
    → read_legacy word ptr (old ++ (x ∷ back)) size ≡ some (pba_done, legacy_text word ptr ++ back)
unfolding read_legacy write_at
read_legacy-append word ptr x old back size fits l =
    let bytes = legacy_bytes word ptr in
    rw fits (
      ap
        (λ (o : Option (List ℕ)). elim o [
          | none ↦ none
          | some b ↦ elim (write_at b 10 0) [
            | none ↦ none
            | some ended ↦ elim (hex_loop 10 0 ended) [
              | none ↦ none
              | some chars ↦ some (pba_done, chars)
            ]
          ]
        ])
        (write_all-append bytes [] old (x ∷ back) 0 refl l)
      ∙ ap (λ (o : Option (List ℕ)). elim o [ none ↦ none | some chars ↦ some (pba_done, chars) ])
          (hex_loop-append bytes [] (0 ∷ back) 0 refl)
      ∙ ap (λ text. some (pba_done, text ++ back)) (legacy_text-eq word ptr))
