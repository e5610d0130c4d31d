-- ===== src/Eeprom/PbaRead.antt =====
-- kmod/ixmap_eeprom.c: the part number as the words of the EEPROM give it, and the buffer.
use ixmap.Base.{
  ℕ, zero, suc, ◌+◌, ◌-◌, ◌*◌, ◌%◌, ◌^◌, ◌≤◌, ◌<◌, ◌≡◌, refl, sym, ap, subst, ◌∙◌, ◌⊎◌, inl, inr,
  List, [], ◌∷◌, ◌++◌, append_assoc, length, Bool, true, false, ◌||◌, ◌==◌, ltb, if◌then◌else◌,
  Option, none, some, Bool-cases, Option-cases, arith,
}
use ixmap.Eeprom.PbaString.{
  PbaStatus, pba_done, pba_invalid_argument, pba_unread, pba_no_space, pba_section,
  pbanum_ptr_guard, pbanum0_ptr, pbanum1_ptr, read_legacy, words_loop, read_section,
  ixmap_read_pba_string,
}
use ixmap.Eeprom.Pba.{split_list, length-append, legacy_text, read_legacy-append}
use ixmap.Eeprom.PbaWords.{read_words, word_bytes, words_loop-LoopEnd}

-- The text of a section; a count of 0 or 0xffff is none.
unfoldable pub section_text : (ℕ → Option ℕ) → ℕ → Option (List ℕ)
section_text read ptr = elim (read ptr) [
  | none ↦ none
  | some count ↦
      if count == 0xffff || count == 0
      then none
      else elim (read_words read (count - 1) ((ptr + 1) % 2 ^ 16) 0) [
        | none ↦ none
        | some words ↦ some (word_bytes words)
      ]
]

-- The part number with its final 0, as the EEPROM holds it.
unfoldable pub pba_text : (ℕ → Option ℕ) → Option (List ℕ)
pba_text read = elim (read pbanum0_ptr) [
  | none ↦ none
  | some word ↦ elim (read pbanum1_ptr) [
    | none ↦ none
    | some ptr ↦
        if word == pbanum_ptr_guard then section_text read ptr else some (legacy_text word ptr)
  ]
]

abbrev pub is_done : PbaStatus → Bool
is_done pba_done = true
is_done pba_invalid_argument = false
is_done pba_unread = false
is_done pba_no_space = false
is_done pba_section = false

-- The text stands at the front of the buffer, and the rest of the buffer is as it was.
abbrev pub Filled : Option (List ℕ) → List ℕ → ℕ → Option (PbaStatus × List ℕ) → Type 0
Filled expected buffer size result =
    (text : List ℕ) × (old : List ℕ) × (back : List ℕ) × (expected ≡ some text)
    × (length text ≤ size)
    × (buffer ≡ old ++ back)
    × (length old ≡ length text)
    × (result ≡ some (pba_done, text ++ back))

-- An error: there is no text, or it does not fit. The buffer may be written, not outside.
abbrev pub Refused : Option (List ℕ) → List ℕ → ℕ → Option (PbaStatus × List ℕ) → Type 0
Refused expected buffer size result =
    (status : PbaStatus) × (after : List ℕ) × (result ≡ some (status, after))
    × (is_done status ≡ false)
    × (length after ≡ length buffer)
    × ((expected ≡ none) ⊎ ((text : List ℕ) × (expected ≡ some text) × (size < length text)))

abbrev pub Outcome : Option (List ℕ) → List ℕ → ℕ → Option (PbaStatus × List ℕ) → Type 0
Outcome expected buffer size result =
    Filled expected buffer size result ⊎ Refused expected buffer size result

zeros : (n : ℕ) → (xs : List ℕ) × (length xs ≡ n)
zeros zero = ([], refl)
zeros (suc n) = let (xs, e) = zeros n in (0 ∷ xs, ap suc e)

legacy-Filled :
    (word ptr : ℕ) (front back : List ℕ) (size : ℕ)
    → ltb size 11 ≡ false
    → size ≤ length (front ++ back)
    → length front ≡ 10
    → Outcome
        (some (legacy_text word ptr))
        (front ++ back)
        size
        (read_legacy word ptr (front ++ back) size)
legacy-Filled word ptr front [] size fits room l = absurd (ground (arith, length-append front []))
legacy-Filled word ptr front (x ∷ back) size fits room l = inl (
  legacy_text word ptr,
  front ++ (x ∷ []),
  back,
  refl,
  ground arith,
  sym (append_assoc front (x ∷ []) back),
  length-append front (x ∷ []) ∙ omega (arith, l),
  read_legacy-append word ptr x front back size fits l,
)

read_legacy-Outcome :
    (word ptr : ℕ) (buffer : List ℕ) (size : ℕ)
    → size ≤ length buffer
    → Outcome (some (legacy_text word ptr)) buffer size (read_legacy word ptr buffer size)
unfolding read_legacy
read_legacy-Outcome word ptr buffer size room = elim (Bool-cases (ltb size 11)) [
  | inl short ↦ inr (
    pba_no_space,
    buffer,
    rw (read_legacy, short) refl,
    refl,
    refl,
    inr (legacy_text word ptr, refl, ground arith),
  )
  | inr fits ↦
      let (front, back, e, l) = split_list 10 buffer (ground arith) in
      subst (λ b. Outcome (some (legacy_text word ptr)) b size (read_legacy word ptr b size))
        (sym e)
        (legacy-Filled word ptr front back size fits (subst (λ b. size ≤ length b) e room) l)
]

-- The words that a section's loop reads, into a buffer with room for them.
words_loop-Outcome :
    (read : ℕ → Option ℕ) (n ptr : ℕ) (buffer : List ℕ) (size : ℕ) (expected : Option (List ℕ))
    → expected
      ≡ elim (read_words read n ptr 0) [ none ↦ none | some words ↦ some (word_bytes words) ]
    → n * 2 + 1 ≤ size
    → size ≤ length buffer
    → Outcome expected buffer size (words_loop read n ptr 0 buffer)
words_loop-Outcome read n ptr buffer size expected means fits room =
    let (old, back, e, l) = split_list (n * 2 + 1) buffer (omega arith) in
    let whole : words_loop read n ptr 0 buffer ≡ words_loop read n ptr 0 (old ++ back) =
      ap (words_loop read n ptr 0) e in
    elim (words_loop-LoopEnd read n ptr 0 [] old back refl l) [
      | inl (words, got, many, ends) ↦ inl (
        word_bytes words,
        old,
        back,
        means ∙ rw got refl,
        omega (arith, many),
        e,
        l ∙ sym many,
        whole ∙ ends,
      )
      | inr (lost, (after, ends, same)) ↦ inr (
        pba_unread,
        after,
        whole ∙ ends,
        refl,
        same ∙ omega (arith, ap length e, length-append old back),
        inl (means ∙ rw lost refl),
      )
    ]

-- Too small a buffer, whether or not the words can be read.
too_small :
    (read : ℕ → Option ℕ) (n ptr size : ℕ) (expected : Option (List ℕ))
    → expected
      ≡ elim (read_words read n ptr 0) [ none ↦ none | some words ↦ some (word_bytes words) ]
    → size < n * 2 + 1
    → (expected ≡ none) ⊎ ((text : List ℕ) × (expected ≡ some text) × (size < length text))
too_small read n ptr size expected means small =
    let (old, l) = zeros (n * 2 + 1) in
    elim (words_loop-LoopEnd read n ptr 0 [] old [] refl l) [
      | inl (words, got, many, ends) ↦
          inr (word_bytes words, means ∙ rw got refl, omega (arith, many))
      | inr (lost, ends) ↦ inl (means ∙ rw lost refl)
    ]

read_section-Outcome :
    (read : ℕ → Option ℕ) (ptr : ℕ) (buffer : List ℕ) (size : ℕ)
    → size ≤ length buffer
    → Outcome (section_text read ptr) buffer size (read_section read ptr buffer size)
unfolding read_section section_text
read_section-Outcome read ptr buffer size room = elim (Option-cases (read ptr)) [
  | inl r ↦
      rw (read_section, section_text, r) (inr (pba_unread, buffer, refl, refl, refl, inl refl))
  | inr (count, r) ↦ elim (Bool-cases (count == 0xffff || count == 0)) [
    | inl bad ↦
        rw (read_section, section_text, r, bad)
          (inr (pba_section, buffer, refl, refl, refl, inl refl))
    | inr good ↦ elim (Bool-cases (ltb size (count * 2 - 1))) [
      | inl small ↦
          rw (read_section, section_text, r, good, small)
            (inr (
              pba_no_space,
              buffer,
              refl,
              refl,
              refl,
              too_small read (count - 1) ((ptr + 1) % 2 ^ 16) size _ refl (ground arith),
            ))
      | inr wide ↦
          rw (read_section, section_text, r, good, wide)
            (words_loop-Outcome read (count - 1) ((ptr + 1) % 2 ^ 16) buffer size _ refl
              (ground arith) room)
    ]
  ]
]

-- With a buffer of at least `pba_num_size` bytes, ixmap_read_pba_string makes no access outside it.
-- If the EEPROM holds a part number that can be read and that fits, with its final 0, into
-- `pba_num_size` bytes, it returns 0 with this text at the front of the buffer and the other bytes
-- unchanged. If not, it returns an error.
pub ixmap_read_pba_string-Outcome :
    (read : ℕ → Option ℕ) (buffer : List ℕ) (pba_num_size : ℕ)
    → pba_num_size ≤ length buffer
    → Outcome
        (pba_text read)
        buffer
        pba_num_size
        (ixmap_read_pba_string read (some buffer) pba_num_size)
unfolding ixmap_read_pba_string pba_text
ixmap_read_pba_string-Outcome read buffer size room = elim (Option-cases (read pbanum0_ptr)) [
  | inl r ↦
      rw (ixmap_read_pba_string, pba_text, r) (inr (pba_unread, buffer, refl, refl, refl, inl refl))
  | inr (word, r) ↦ elim (Option-cases (read pbanum1_ptr)) [
    | inl r' ↦
        rw (ixmap_read_pba_string, pba_text, r, r')
          (inr (pba_unread, buffer, refl, refl, refl, inl refl))
    | inr (ptr, r') ↦ elim (Bool-cases (word == pbanum_ptr_guard)) [
      | inl new ↦
          rw (ixmap_read_pba_string, pba_text, r, r', new)
            (read_section-Outcome read ptr buffer size room)
      | inr old ↦
          rw (ixmap_read_pba_string, pba_text, r, r', old)
            (read_legacy-Outcome word ptr buffer size room)
    ]
  ]
]
