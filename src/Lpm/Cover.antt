-- ===== src/Lpm/Cover.antt =====
-- The nodes that hold a prefix, bit by bit: a destination meets one of them exactly if its first
-- `prefix_len` bits are those of the prefix.
use ixmap.Base.{
  ℕ, zero, suc, ◌+◌, ◌-◌, ◌*◌, ◌/◌, ◌%◌, ◌^◌, ◌≤◌, ◌<◌, ◌≡◌, ◌↔◌, refl, sym, ◌∙◌, ap, ap₂, Bool,
  true, ◌&&◌, arith, ◌==◌, ==_iff, ltb, Bool-cases, inl, inr,
}
use native.Mathlib.Nat.{div-add-mod, pow-suc, div-div-eq-div-mul, mul_comm, div-one}
use ixmap.Lpm.{lpm_index}
use ixmap.Lpm.Effect.{meets, meets_below, power_pos}

-- Bit `i` of an address, from the first bit of the first word on.
pub bit_of : (ℕ → ℕ) → ℕ → ℕ
bit_of a i = (a (i / 32) / 2 ^ (31 - i % 32)) % 2

-- The bits from `o` up to `n` agree.
abbrev pub Agree : (ℕ → ℕ) → (ℕ → ℕ) → ℕ → ℕ → Type 0
Agree a b o n = (i : ℕ) → o ≤ i → i < n → bit_of a i ≡ bit_of b i

mod_double : (v m : ℕ) → 0 < m → v % (m * 2) ≡ 2 * ((v / 2) % m) + v % 2
mod_double v m h =
    let quotient : v / (m * 2) ≡ v / 2 / m =
      ap (λ t. v / t) (mul_comm m 2) ∙ sym (div-div-eq-div-mul v 2 m) in
    let product = ap (λ t. m * t) quotient in
    omega (arith, product, div-add-mod v (m * 2), div-add-mod (v / 2) m)

module _ (a : ℕ → ℕ) (o k : ℕ) (h : o % 32 + suc k ≤ 32) where
  word : ℕ
  word = a (o / 32) / 2 ^ (32 - (o % 32 + suc k))

  word_index : lpm_index a o (suc k) ≡ word % (2 ^ k * 2)
  unfolding lpm_index word
  word_index = ap (λ t. a (o / 32) / 2 ^ (32 - (o % 32 + suc k)) % t) (pow-suc 2 k)

  word_half : word / 2 ≡ a (o / 32) / 2 ^ (32 - (o % 32 + k))
  unfolding word
  word_half =
      div-div-eq-div-mul (a (o / 32)) (2 ^ (32 - (o % 32 + suc k))) 2
      ∙ ap (λ t. a (o / 32) / t)
          (sym (pow-suc 2 (32 - (o % 32 + suc k))) ∙ ap (λ t. 2 ^ t) (omega arith))

  word_bit : word % 2 ≡ bit_of a (o + k)
  unfolding word bit_of
  word_bit =
      ap₂ (λ t s. (a t / 2 ^ s) % 2) {x = o / 32} {y = (o + k) / 32} (omega arith) (omega arith)

  -- One more bit of a field.
  index_suc : lpm_index a o (suc k) ≡ 2 * lpm_index a o k + bit_of a (o + k)
  unfolding lpm_index
  index_suc =
      word_index
      ∙ mod_double word (2 ^ k) (power_pos k)
      ∙ ap₂ (λ t s. 2 * (t % 2 ^ k) + s) word_half word_bit

bit_of-lt : (a : ℕ → ℕ) (i : ℕ) → bit_of a i < 2
unfolding bit_of
bit_of-lt a i = omega arith

Agree-last :
    (a b : ℕ → ℕ) (o n m : ℕ) → m ≡ suc n → Agree a b o n → bit_of a n ≡ bit_of b n → Agree a b o m
Agree-last a b o n m e h last i lo hi = elim (Bool-cases (i == n)) [
  | inl same ↦ rw ((==_iff i n).0 same) last
  | inr other ↦ h i lo (ground arith)
]

-- A field of `k` bits is equal in two addresses exactly if its bits are.
index_iff :
    (a b : ℕ → ℕ) (o k : ℕ)
    → o % 32 + k ≤ 32
    → (lpm_index a o k ≡ lpm_index b o k) ↔ Agree a b o (o + k)
unfolding lpm_index
index_iff a b o zero h = (λ e i lo hi. absurd (omega arith), λ g. omega arith)
index_iff a b o (suc k) h =
    let (to, from) = index_iff a b o k (omega arith) in
    let step_a = index_suc a o k h in
    let step_b = index_suc b o k h in
    let small_a = bit_of-lt a (o + k) in
    let small_b = bit_of-lt b (o + k) in
    (
      λ e. Agree-last a b o (o + k) (o + suc k) (omega arith) (to (omega arith)) (omega arith),
      λ g.
          let init = from (λ i lo hi. g i lo (omega arith)) in
          let last = g (o + k) (omega arith) (omega arith) in omega arith,
    )

-- The leading `k` bits of a longer field.
index_shrink :
    (a : ℕ → ℕ) (o k d n : ℕ)
    → n ≡ k + d
    → o % 32 + n ≤ 32
    → lpm_index a o n / 2 ^ d ≡ lpm_index a o k
index_shrink a o k zero n e h = div-one (lpm_index a o n) ∙ ap (lpm_index a o) (omega arith)
index_shrink a o k (suc d) n e h =
    let longer = index_suc a o (k + d) (omega arith) in
    let small = bit_of-lt a (o + (k + d)) in
    ap (λ t. lpm_index a o n / t) (pow-suc 2 d ∙ mul_comm (2 ^ d) 2)
    ∙ sym (div-div-eq-div-mul (lpm_index a o n) 2 (2 ^ d))
    ∙ ap (λ t. t / 2 ^ d) {y = lpm_index a o (k + d)}
        (ap (λ t. lpm_index a o t / 2) {y = suc (k + d)} (omega arith) ∙ omega arith)
    ∙ index_shrink a o k d (k + d) refl (omega arith)

module _ (prefix dst : ℕ → ℕ) (len : ℕ) where
  -- The test of the last level: the bits from `o` up to the prefix length.
  block_iff :
      (o k d r : ℕ)
      → r ≡ k + d
      → o % 32 + r ≤ 32
      → o + k ≡ len
      → ((lpm_index dst o r / 2 ^ d == lpm_index prefix o r / 2 ^ d) ≡ true)
        ↔ Agree dst prefix o len
  block_iff o k d r e h at_len =
      let (to, from) = index_iff dst prefix o k (omega arith) in
      rw (index_shrink dst o k d r e h, index_shrink prefix o k d r e h, ← at_len)
        (λ hit. to ((==_iff _ _).0 hit), λ g. (==_iff _ _).1 (from g))

  -- The test of a level that the prefix goes beyond.
  field_iff :
      (o w : ℕ) (m : Bool)
      → o + w ≤ len
      → o % 32 + w ≤ 32
      → (m ≡ true) ↔ Agree dst prefix (o + w) len
      → (((lpm_index dst o w == lpm_index prefix o w) && m) ≡ true) ↔ Agree dst prefix o len
  field_iff o w m short h rest =
      let (to, from) = index_iff dst prefix o w h in
      (
        λ hit i lo hi. elim (Bool-cases (ltb i (o + w))) [
          | inl first ↦ to (ground arith) i lo (ground arith)
          | inr later ↦ rest.0 (ground arith) i (ground arith) hi
        ],
        λ g.
            let same = from (λ i lo hi. g i lo (omega arith)) in
            let more = rest.1 (λ i lo hi. g i (omega arith) hi) in ground arith,
      )

  meets_below_iff :
      (fuel offset : ℕ)
      → offset % 8 ≡ 0
      → offset < len
      → len ≤ offset + fuel
      → (meets_below prefix len dst fuel offset ≡ true) ↔ Agree dst prefix offset len
  unfolding meets_below
  meets_below_iff zero offset al lo enough = absurd (omega arith)
  meets_below_iff (suc fuel) offset al lo enough = elim (Bool-cases (ltb 8 (len - offset))) [
    | inr here ↦ rw here (
        block_iff offset (len - offset) (8 - (len - offset)) 8 (ground arith) (omega arith)
          (omega arith))
    | inl deep ↦ rw deep (
        field_iff offset 8 (meets_below prefix len dst fuel (offset + 8)) (ground arith)
          (omega arith)
          (meets_below_iff fuel (offset + 8) (omega arith) (ground arith) (omega arith)))
  ]

  -- A destination meets the nodes that lpm_add and lpm_delete visit for a prefix exactly if its
  -- first `len` bits are those of the prefix.
  meets_iff : (meets prefix len dst ≡ true) ↔ Agree dst prefix 0 len
  unfolding meets
  meets_iff = elim (Bool-cases (ltb 16 len)) [
    | inr top ↦ rw top (block_iff 0 len (16 - len) 16 (ground arith) (omega arith) (omega arith))
    | inl deep ↦ rw deep (
        field_iff 0 16 (meets_below prefix len dst len 16) (ground arith) (omega arith)
          (meets_below_iff len 16 (omega arith) (ground arith) (omega arith)))
  ]
