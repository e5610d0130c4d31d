-- ===== src/Eeprom/PbaWords.antt =====
-- kmod/ixmap_eeprom.c: the words of the part number's section.
use ixmap.Base.{
  ℕ, zero, suc, ◌+◌, ◌*◌, ◌/◌, ◌%◌, ◌^◌, ◌≡◌, refl, sym, ap, ◌∙◌, ◌⊎◌, inl, inr, List, [], ◌∷◌,
  ◌++◌, append_assoc, length, Option, none, some, Option-cases, arith, bit_and, bit_and-byte,
}
use ixmap.Eeprom.PbaString.{PbaStatus, pba_done, pba_unread, write_at, words_loop}
use ixmap.Eeprom.Pba.{write_at-append, length-append}

-- The words of a section, or `none` if one cannot be read.
unfoldable pub read_words : (ℕ → Option ℕ) → ℕ → ℕ → ℕ → Option (List ℕ)
read_words read zero ptr offset = some []
read_words read (suc n) ptr offset = elim (read ((ptr + offset) % 2 ^ 16)) [
  | none ↦ none
  | some word ↦ elim (read_words read n ptr (suc offset)) [
    | none ↦ none
    | some words ↦ some (word ∷ words)
  ]
]

-- The bytes of words, the high one first, and a 0.
abbrev pub word_bytes : List ℕ → List ℕ
word_bytes [] = 0 ∷ []
word_bytes (word ∷ words) = word / 256 % 256 ∷ word % 256 ∷ word_bytes words

module _ (read : ℕ → Option ℕ) where
  -- The loop with the words written, or without a word.
  abbrev pub LoopEnd : ℕ → ℕ → ℕ → List ℕ → List ℕ → List ℕ → Type 0
  LoopEnd n ptr offset front old back =
      let result = words_loop read n ptr offset (front ++ (old ++ back)) in
      ((words : List ℕ) × (read_words read n ptr offset ≡ some words)
        × (length (word_bytes words) ≡ n * 2 + 1)
        × (result ≡ some (pba_done, front ++ (word_bytes words ++ back))))
      ⊎ ((read_words read n ptr offset ≡ none)
          × ((after : List ℕ) × (result ≡ some (pba_unread, after))
              × (length after ≡ length front + (length old + length back))))

  words_loop-round :
      (n ptr offset word x y : ℕ) (front back : List ℕ)
      → offset * 2 ≡ length front
      → read ((ptr + offset) % 2 ^ 16) ≡ some word
      → words_loop read (suc n) ptr offset (front ++ (x ∷ y ∷ back))
        ≡ words_loop read n ptr
            (suc offset)
            ((front ++ (word / 2 ^ 8 % 2 ^ 8 ∷ word % 256 ∷ [])) ++ back)
  unfolding words_loop
  words_loop-round n ptr offset word x y front back e r =
      let high = word / 2 ^ 8 % 2 ^ 8 in
      let low = bit_and word 0xff in
      let grown = front ++ (high ∷ []) in
      let one : length grown ≡ suc (length front) = length-append front (high ∷ []) ∙ omega arith in
      let next : front ++ (high ∷ y ∷ back) ≡ grown ++ (y ∷ back) =
        sym (append_assoc front (high ∷ []) (y ∷ back)) in
      let last : grown ++ (low ∷ back) ≡ (front ++ (high ∷ low ∷ [])) ++ back =
        append_assoc front (high ∷ []) (low ∷ back)
        ∙ sym (append_assoc front (high ∷ low ∷ []) back) in
      let rest : Option (List ℕ) → Option (PbaStatus × List ℕ) =
        λ o. elim o [ none ↦ none | some w ↦ words_loop read n ptr (suc offset) w ] in
      rw (words_loop, r)
        (ap
            (λ (o : Option (List ℕ)). elim o [
              | none ↦ none
              | some w ↦ rest (write_at w (offset * 2 + 1) low)
            ])
            (write_at-append front x (y ∷ back) (offset * 2) high e)
          ∙ ap (λ w. rest (write_at w (offset * 2 + 1) low)) next
          ∙ ap rest (write_at-append grown y back (offset * 2 + 1) low (omega (arith, e, one)))
          ∙ ap (words_loop read n ptr (suc offset)) last
          ∙ ap (λ b. words_loop read n ptr (suc offset) ((front ++ (high ∷ b ∷ [])) ++ back))
              (bit_and-byte word))

  pub words_loop-LoopEnd :
      (n ptr offset : ℕ) (front old back : List ℕ)
      → offset * 2 ≡ length front
      → length old ≡ n * 2 + 1
      → LoopEnd n ptr offset front old back
  unfolding words_loop read_words
  words_loop-LoopEnd zero ptr offset front [] back e l = absurd (omega arith)
  words_loop-LoopEnd zero ptr offset front (x ∷ y ∷ old) back e l = absurd (omega arith)
  words_loop-LoopEnd zero ptr offset front (x ∷ []) back e l = inl (
    [],
    refl,
    refl,
    ap (λ (o : Option (List ℕ)). elim o [ none ↦ none | some w ↦ some (pba_done, w) ])
        (write_at-append front x back (offset * 2) 0 e),
  )
  words_loop-LoopEnd (suc n) ptr offset front [] back e l = absurd (omega arith)
  words_loop-LoopEnd (suc n) ptr offset front (x ∷ []) back e l = absurd (omega arith)
  words_loop-LoopEnd (suc n) ptr offset front (x ∷ y ∷ old) back e l =
      elim (Option-cases (read ((ptr + offset) % 2 ^ 16))) [
        | inl r ↦ inr (
          rw (read_words, r) refl,
          (
            front ++ (x ∷ y ∷ (old ++ back)),
            rw (words_loop, r) refl,
            length-append front (x ∷ y ∷ (old ++ back)) ∙ omega (arith, length-append old back),
          ),
        )
        | inr (word, r) ↦
            let bytes = word / 2 ^ 8 % 2 ^ 8 ∷ word % 256 ∷ [] in
            let grown = front ++ bytes in
            let two : length grown ≡ length front + 2 = length-append front bytes in
            let round = words_loop-round n ptr offset word x y front (old ++ back) e r in
            elim (words_loop-LoopEnd n ptr (suc offset) grown old back (omega (arith, e, two))
              (omega arith)) [
                | inl (words, got, many, ends) ↦ inl (
                  word ∷ words,
                  rw (read_words, r, got) refl,
                  omega (arith, many),
                  round
                      ∙ ends
                      ∙ ap (λ xs. some (pba_done, xs))
                          (append_assoc front bytes (word_bytes words ++ back)),
                )
                | inr (lost, (after, ends, size)) ↦
                    inr (
                      rw (read_words, r, lost) refl,
                      (after, round ∙ ends, omega (arith, size, two)),
                    )
              ]
      ]
