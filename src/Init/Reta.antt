-- ===== src/Init/Reta.antt =====
-- The redirection table that ixmap_setup_mrqc (lib/rxinit.c) fills.
use ixmap.Base.{
  ℕ, zero, suc, ◌+◌, ◌*◌, ◌/◌, ◌%◌, ◌^◌, ◌≤◌, ◌<◌, ◌≡◌, inl, inr, refl, sym, ap, subst, ◌∙◌, true,
  false, ◌==◌, ltb, if◌then◌else◌, arith, bit_or, bit_and, bit_or-low, bit_and-three, Bool-cases,
}
use native.Mathlib.Nat.{zero-mod, suc-mod, mod-lt, mod-eq_of_lt, mod_self}
use ixmap.Hw.{Regs, write_reg}
use ixmap.Setup.{Handle}
use ixmap.Init.{Card}
use ixmap.Init.Rx.{reg_reta, fill_reta, write_seeds, seeds, ixmap_setup_mrqc}

-- The four entries of register `g`, the first in the highest byte: the queues in turn.
abbrev pub InTurn : ℕ → ℕ → ℕ → Type 0
InTurn num_queues g word =
    (word / 2 ^ 24 % 2 ^ 8 ≡ (4 * g) % num_queues)
    × (word / 2 ^ 16 % 2 ^ 8 ≡ suc (4 * g) % num_queues)
    × (word / 2 ^ 8 % 2 ^ 8 ≡ suc (suc (4 * g)) % num_queues)
    × (word % 2 ^ 8 ≡ suc (suc (suc (4 * g))) % num_queues)

abbrev next : ℕ → ℕ → ℕ
next num_queues j = if j == num_queues then 0 else j

-- One more entry shifted in.
abbrev push : ℕ → ℕ → ℕ
push reta queue = bit_or (reta * 2 ^ 8 % 2 ^ 32) (queue * 1)

push-add : (reta queue : ℕ) → queue < 256 → push reta queue ≡ reta % 2 ^ 24 * 256 + queue
push-add reta queue h =
    let shifted : reta * 2 ^ 8 % 2 ^ 32 ≡ reta % 2 ^ 24 * 2 ^ 8 = omega arith in
    let plain : queue * 1 ≡ queue = omega arith in
    rw (shifted, plain) (bit_or-low 8 (reta % 2 ^ 24) queue h)

next_mod :
    (num_queues i : ℕ) → 0 < num_queues → next num_queues (i % num_queues + 1) ≡ suc i % num_queues
next_mod num_queues i h = elim (Bool-cases (i % num_queues + 1 == num_queues)) [
  | inl e ↦
      let last : suc (i % num_queues) ≡ num_queues = ground arith in
      rw (e, suc-mod i num_queues, last) (sym (mod_self num_queues))
  | inr e ↦
      let less : suc (i % num_queues) < num_queues = ground (arith, mod-lt i h) in
      rw (e, suc-mod i num_queues, mod-eq_of_lt less) (omega arith)
]

module _ (num_queues : ℕ) where
  fill_reta-done : (i j reta : ℕ) (regs : Regs) → fill_reta num_queues zero i j reta regs ≡ regs
  unfolding fill_reta
  fill_reta-done i j reta regs = refl

  fill_reta-plain :
      (n i j reta queue : ℕ) (regs : Regs)
      → next num_queues j ≡ queue
      → i % 4 < 3
      → fill_reta num_queues (suc n) i j reta regs
        ≡ fill_reta num_queues n (i + 1) (queue + 1) (push reta queue) regs
  unfolding fill_reta
  fill_reta-plain n i j reta queue regs e h =
      let test : (bit_and i 3 == 3) ≡ false = ground (arith, bit_and-three i) in rw (e, test) refl

  fill_reta-write :
      (n i j reta queue : ℕ) (regs : Regs)
      → next num_queues j ≡ queue
      → i % 4 ≡ 3
      → i < 128
      → fill_reta num_queues (suc n) i j reta regs
        ≡ fill_reta num_queues n
            (i + 1)
            (queue + 1)
            (push reta queue)
            (write_reg regs (reg_reta (i / 4)) (push reta queue))
  unfolding fill_reta
  fill_reta-write n i j reta queue regs e h lt =
      let test : (bit_and i 3 == 3) ≡ true = ground (arith, bit_and-three i) in
      let below : ltb i 128 ≡ true = ground arith in rw (e, test, below) refl

-- The word that four entries make.
abbrev push_four : ℕ → ℕ → ℕ → ℕ → ℕ → ℕ
push_four reta a b c d = push (push (push (push reta a) b) c) d

push_four-bytes :
    (reta a b c d : ℕ)
    → a < 256
    → b < 256
    → c < 256
    → d < 256
    → let word = push_four reta a b c d in
      (word / 2 ^ 24 % 2 ^ 8 ≡ a)
      × (word / 2 ^ 16 % 2 ^ 8 ≡ b)
      × (word / 2 ^ 8 % 2 ^ 8 ≡ c)
      × (word % 2 ^ 8 ≡ d)
push_four-bytes reta a b c d ha hb hc hd =
    let e₁ = push-add reta a ha in
    let e₂ = push-add (push reta a) b hb in
    let e₃ = push-add (push (push reta a) b) c hc in
    let e₄ = push-add (push (push (push reta a) b) c) d hd in
    (
      omega (arith, e₁, e₂, e₃, e₄),
      omega (arith, e₂, e₃, e₄),
      omega (arith, e₃, e₄),
      omega (arith, e₄),
    )

abbrev fours : ℕ → ℕ
fours zero = zero
fours (suc m) = suc (suc (suc (suc (fours m))))

module _ (num_queues : ℕ) (some_queue : 0 < num_queues) (few : num_queues ≤ 256) where
  abbrev wanted : ℕ → ℕ
  wanted i = i % num_queues

  abbrev group_word : ℕ → ℕ → ℕ
  group_word k reta =
      push_four reta (wanted (4 * k)) (wanted (suc (4 * k))) (wanted (suc (suc (4 * k))))
        (wanted (suc (suc (suc (4 * k)))))

  wanted_lt : (i : ℕ) → wanted i < 256
  wanted_lt i = omega (arith, mod-lt i some_queue)

  group_word-InTurn : (k reta : ℕ) → InTurn num_queues k (group_word k reta)
  group_word-InTurn k reta =
      push_four-bytes reta _ _ _ _ (wanted_lt (4 * k)) (wanted_lt (suc (4 * k)))
        (wanted_lt (suc (suc (4 * k)))) (wanted_lt (suc (suc (suc (4 * k)))))

  -- Four rounds write one register.
  fill_reta-group :
      (n k j reta : ℕ) (regs : Regs)
      → next num_queues j ≡ wanted (4 * k)
      → k < 32
      → fill_reta num_queues (suc (suc (suc (suc n)))) (4 * k) j reta regs
        ≡ fill_reta num_queues n
            (4 * k + 1 + 1 + 1 + 1)
            (wanted (suc (suc (suc (4 * k)))) + 1)
            (group_word k reta)
            (write_reg regs (reg_reta k) (group_word k reta))
  fill_reta-group n k j reta regs e lt =
      let i = 4 * k in
      let step = λ (x : ℕ). next_mod num_queues x some_queue in
      let place : (i + 1 + 1 + 1) / 4 ≡ k = omega arith in
      let r₁ = push reta (wanted i) in
      let r₂ = push r₁ (wanted (suc i)) in
      let r₃ = push r₂ (wanted (suc (suc i))) in
      fill_reta-plain num_queues _ i j reta (wanted i) regs e (omega arith)
      ∙ fill_reta-plain num_queues _ (i + 1) _ r₁ (wanted (suc i)) regs (step i) (omega arith)
      ∙ fill_reta-plain num_queues _ (i + 1 + 1) _ r₂ (wanted (suc (suc i))) regs (step (suc i))
          (omega arith)
      ∙ fill_reta-write num_queues n (i + 1 + 1 + 1) _ r₃ (wanted (suc (suc (suc i)))) regs
          (step (suc (suc i))) (omega arith) (omega arith)
      ∙ ap
          (λ p.
            fill_reta num_queues n (i + 1 + 1 + 1 + 1) (wanted (suc (suc (suc i))) + 1)
              (group_word k reta) (write_reg regs (reg_reta p) (group_word k reta)))
          place

  fill_reta-InTurn :
      (m k j reta g : ℕ) (regs : Regs)
      → next num_queues j ≡ wanted (4 * k)
      → k + m ≤ 32
      → g < k + m
      → (g < k → InTurn num_queues g (regs (reg_reta g)))
      → InTurn num_queues g (fill_reta num_queues (fours m) (4 * k) j reta regs (reg_reta g))
  fill_reta-InTurn zero k j reta g regs e few_left lt before =
      subst (λ (r : Regs). InTurn num_queues g (r (reg_reta g)))
        (sym (fill_reta-done num_queues (4 * k) j reta regs)) (before (omega arith))
  fill_reta-InTurn (suc m) k j reta g regs e few_left lt before =
      let word = group_word k reta in
      let further : 4 * k + 1 + 1 + 1 + 1 ≡ 4 * suc k = omega arith in
      let again : next num_queues (wanted (suc (suc (suc (4 * k)))) + 1) ≡ wanted (4 * suc k) =
        next_mod num_queues (suc (suc (suc (4 * k)))) some_queue ∙ ap wanted (omega arith) in
      let written = write_reg regs (reg_reta k) word in
      let rest =
        fill_reta-InTurn m (suc k) (wanted (suc (suc (suc (4 * k)))) + 1) word g written again
          (omega arith) (omega arith)
          (λ h. elim (Bool-cases (g == k)) [
            | inl here ↦
                let same : g ≡ k = ground arith in
                let value : written (reg_reta g) ≡ word = ground arith in
                subst (InTurn num_queues g) (sym value)
                  (subst (λ x. InTurn num_queues x word) (sym same) (group_word-InTurn k reta))
            | inr other ↦
                let value : written (reg_reta g) ≡ regs (reg_reta g) = ground arith in
                subst (InTurn num_queues g) (sym value) (before (ground arith))
          ]) in
      subst (λ (r : Regs). InTurn num_queues g (r (reg_reta g)))
        (sym (
          fill_reta-group (fours m) k j reta regs e (omega arith)
          ∙ ap
              (λ i.
                fill_reta num_queues (fours m) i (wanted (suc (suc (suc (4 * k)))) + 1) word
                  written)
              further))
        rest

mrqc-others :
    (ih : Handle) (card : Card) (g : ℕ)
    → g < 32
    → (ixmap_setup_mrqc ih card).regs (reg_reta g)
      ≡ fill_reta ih.num_queues 128 0 0 0 (write_seeds seeds 0 card.regs) (reg_reta g)
unfolding ixmap_setup_mrqc
mrqc-others ih card g h = ground arith

-- With 1 to 256 queues ixmap_setup_mrqc fills the 128 entries of the redirection table, four to a
-- register and the first of them in the highest byte, with the queues in turn: entry i gets queue
-- i modulo the number of queues.
pub ixmap_setup_mrqc-InTurn :
    (ih : Handle) (card : Card) (g : ℕ)
    → 0 < ih.num_queues
    → ih.num_queues ≤ 256
    → g < 32
    → InTurn ih.num_queues g ((ixmap_setup_mrqc ih card).regs (reg_reta g))
ixmap_setup_mrqc-InTurn ih card g some_queue few lt =
    let start : next ih.num_queues 0 ≡ (4 * 0) % ih.num_queues =
      ground (arith, zero-mod ih.num_queues) in
    subst (InTurn ih.num_queues g) (sym (mrqc-others ih card g lt)) (
      fill_reta-InTurn ih.num_queues some_queue few 32 0 0 0 g (write_seeds seeds 0 card.regs) start
        (omega arith) lt (λ h. absurd (omega arith)))
