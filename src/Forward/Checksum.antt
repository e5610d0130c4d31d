-- ===== src/Forward/Checksum.antt =====
-- The header checksum that forward_ip_process updates in place of summing the header again.
use ixmap.Base.{
  ℕ, zero, suc, ◌+◌, ◌-◌, ◌*◌, ◌/◌, ◌%◌, ◌^◌, ◌≤◌, ◌<◌, ◌≡◌, ◌≢◌, refl, ◌∙◌, subst, ==_iff, List,
  Bool, true, arith, ◌==◌, if◌then◌else◌,
}
use ixmap.Forward.Bytes.{Mem, write_bytes}
use ixmap.Forward.{ip_check_update, ip_rewrite}

-- The sum of `n` 16-bit words of the frame at `base`, from offset `o` on. One's-complement addition
-- is addition modulo 65535, in either byte order.
abbrev pub word_sum : Mem → ℕ → ℕ → ℕ → ℕ
word_sum mem base zero o = 0
word_sum mem base (suc n) o =
    mem (base + o) + 256 * mem (base + (o + 1)) + word_sum mem base n (o + 2)

-- Whether a receiver accepts the IP header of `n` 16-bit words.
abbrev pub header_ok : Mem → ℕ → ℕ → Bool
header_ok mem base n = word_sum mem base n 14 % 0xffff == 0

abbrev pub IsBytes : Mem → Type 0
IsBytes mem = (a : ℕ) → mem a < 256

-- The in-place update is the old checksum and one, modulo 65535, and fits 16 bits.
ip_check_update-mod :
    (old : ℕ)
    → old < 2 ^ 16
    → (ip_check_update old % 0xffff ≡ (old + 1) % 0xffff) × (ip_check_update old < 2 ^ 16)
unfolding ip_check_update
ip_check_update-mod old h = (ground arith, ground arith)

word_sum_congr :
    (mem mem' : Mem) (base n o : ℕ)
    → ((i : ℕ) → o ≤ i → mem' (base + i) ≡ mem (base + i))
    → word_sum mem' base n o ≡ word_sum mem base n o
word_sum_congr mem mem' base zero o h = refl
word_sum_congr mem mem' base (suc n) o h = omega (
  arith,
  h o (omega arith),
  h (o + 1) (omega arith),
  word_sum_congr mem mem' base n (o + 2) (λ i k. h i (omega arith)),
)

sums_mod :
    (new old check sum : ℕ)
    → new + (old + 1) ≡ sum + check
    → check % 0xffff ≡ (old + 1) % 0xffff
    → sum % 0xffff ≡ 0
    → new % 0xffff ≡ 0
sums_mod new old check sum e same zero_sum = omega arith

module _ (mem : Mem) (base : ℕ) (dst_mac src_mac : List ℕ) where
  -- The checksum that forward_ip_process stores.
  abbrev new_check : ℕ
  new_check = ip_check_update (mem (base + 24) + 256 * mem (base + 25))

  -- What forward_ip_process does to each byte behind the Ethernet addresses.
  ip_rewrite-eq :
      (o : ℕ)
      → 12 ≤ o
      → ip_rewrite mem base dst_mac src_mac (base + o) ≡ (
          if o == 22
          then (mem (base + 22) + 255) % 256
          else if o == 24
          then new_check % 256
          else if o == 25
          then new_check / 256
          else mem (base + o))
  unfolding ip_rewrite write_bytes
  ip_rewrite-eq o h = ground arith

  abbrev frame : Mem
  frame = ip_rewrite mem base dst_mac src_mac

  -- The six words up to the checksum and the words behind it.
  ip_rewrite-word_sum :
      (n : ℕ)
      → IsBytes mem
      → mem (base + 22) ≢ 0
      → word_sum frame base (suc (suc (suc (suc (suc (suc n)))))) 14
          + (mem (base + 24) + 256 * mem (base + 25) + 1)
        ≡ word_sum mem base (suc (suc (suc (suc (suc (suc n)))))) 14 + new_check
  ip_rewrite-word_sum n bytes alive = omega (
    arith,
    bytes (base + 22),
    ip_rewrite-eq 14 (omega arith),
    ip_rewrite-eq 15 (omega arith),
    ip_rewrite-eq 16 (omega arith),
    ip_rewrite-eq 17 (omega arith),
    ip_rewrite-eq 18 (omega arith),
    ip_rewrite-eq 19 (omega arith),
    ip_rewrite-eq 20 (omega arith),
    ip_rewrite-eq 21 (omega arith),
    ip_rewrite-eq 22 (omega arith),
    ip_rewrite-eq 23 (omega arith),
    ip_rewrite-eq 24 (omega arith),
    ip_rewrite-eq 25 (omega arith),
    word_sum_congr mem frame base n 26 (λ i h. ip_rewrite-eq i (omega arith) ∙ ground arith),
  )

  header_ok-rewritten :
      (n : ℕ)
      → IsBytes mem
      → mem (base + 22) ≢ 0
      → header_ok mem base (suc (suc (suc (suc (suc (suc n)))))) ≡ true
      → header_ok frame base (suc (suc (suc (suc (suc (suc n)))))) ≡ true
  header_ok-rewritten n bytes alive ok =
      let sum = ip_rewrite-word_sum n bytes alive in
      let (same, small) =
        ip_check_update-mod (mem (base + 24) + 256 * mem (base + 25))
          (omega (arith, bytes (base + 24), bytes (base + 25))) in
      let before : word_sum mem base (suc (suc (suc (suc (suc (suc n)))))) 14 % 0xffff ≡ 0 =
        (==_iff _ 0).0 ok in
      (==_iff _ 0).1 (sums_mod _ _ _ _ sum same before)

  -- An IP header of `n` 16-bit words, 10 or more, that a receiver accepts is accepted after
  -- forward_ip_process has counted the time to live down, if that was not 0.
  pub ip_rewrite-header_ok :
      (n : ℕ)
      → 10 ≤ n
      → IsBytes mem
      → mem (base + 22) ≢ 0
      → header_ok mem base n ≡ true
      → header_ok (ip_rewrite mem base dst_mac src_mac) base n ≡ true
  ip_rewrite-header_ok n long bytes alive =
      let e : suc (suc (suc (suc (suc (suc (n - 6)))))) ≡ n = omega arith in
      subst (λ m. header_ok mem base m ≡ true → header_ok frame base m ≡ true) e
        (header_ok-rewritten (n - 6) bytes alive)
