-- ===== src/Forward/Bytes.antt =====
-- Packet memory for src/forward.c: loads and stores of bytes, of 16-bit and of 32-bit fields.
use ixmap.Base.{
  ℕ, zero, suc, ◌+◌, ◌-◌, ◌*◌, ◌/◌, ◌%◌, ◌^◌, List, [], ◌∷◌, ltb, leb, if◌then◌else◌, update,
  get_or, ◌&&◌, ◌≤◌, ◌≡◌, refl, ap₂, ◌∙◌, arith, length,
}
use ixmap.Neigh.Keys.{DstAddr}

abbrev pub Mem : Type 0
Mem = ℕ → ℕ

abbrev pub read_bytes : Mem → ℕ → ℕ → List ℕ
read_bytes mem base zero = []
read_bytes mem base (suc n) = mem base ∷ read_bytes mem (base + 1) n

-- `memcpy` of `n` bytes to `base`.
unfoldable pub write_bytes : Mem → ℕ → ℕ → List ℕ → Mem
write_bytes mem base n bytes a =
    if leb base a && ltb a (base + n) then get_or bytes (a - base) 0 else mem a

abbrev pub load16_be : Mem → ℕ → ℕ
load16_be mem at = 256 * mem at + mem (at + 1)

abbrev pub load16_le : Mem → ℕ → ℕ
load16_le mem at = mem at + 256 * mem (at + 1)

abbrev pub store16_le : Mem → ℕ → ℕ → Mem
store16_le mem at value = update (update mem at (value % 256)) (at + 1) (value / 256)

abbrev pub load32_le : Mem → ℕ → ℕ
load32_le mem at = load16_le mem at + 2 ^ 16 * load16_le mem (at + 2)

-- The 32-bit words from `at` on, each by `ntohl`.
abbrev pub net_words : Mem → ℕ → ℕ → ℕ
net_words mem at i = 2 ^ 16 * load16_be mem (at + 4 * i) + load16_be mem (at + 4 * i + 2)

-- The address at `at` as the host loads its words.
abbrev pub host_addr : Mem → ℕ → DstAddr
host_addr mem at = record {
  w0 = load32_le mem at;
  w1 = load32_le mem (at + 4);
  w2 = load32_le mem (at + 8);
  w3 = load32_le mem (at + 12);
}

abbrev pub swap32 : ℕ → ℕ
swap32 w =
    (w % 256) * 2 ^ 24 + (w / 256 % 256) * 2 ^ 16 + (w / 2 ^ 16 % 256) * 2 ^ 8 + w / 2 ^ 24 % 256

-- An address that is given by its words after `ntohl`.
abbrev pub words_addr : (ℕ → ℕ) → DstAddr
words_addr words = record {
  w0 = swap32 (words 0);
  w1 = swap32 (words 1);
  w2 = swap32 (words 2);
  w3 = swap32 (words 3);
}

read_bytes_congr :
    (mem mem' : Mem) (n base : ℕ)
    → ((a : ℕ) → base ≤ a → mem' a ≡ mem a)
    → read_bytes mem' base n ≡ read_bytes mem base n
read_bytes_congr mem mem' zero base h = refl
read_bytes_congr mem mem' (suc n) base h =
    ap₂ (λ x xs. x ∷ xs) (h base (omega arith))
      (read_bytes_congr mem mem' n (base + 1) (λ a k. h a (omega arith)))

-- What `memcpy` wrote is read back.
pub read_bytes-write_bytes :
    (mem : Mem) (base : ℕ) (bytes : List ℕ)
    → read_bytes (write_bytes mem base (length bytes) bytes) base (length bytes) ≡ bytes
unfolding write_bytes
read_bytes-write_bytes mem base [] = refl
read_bytes-write_bytes mem base (b ∷ bytes) =
    ap₂ (λ x xs. x ∷ xs) (ground arith)
      (read_bytes_congr (write_bytes mem (base + 1) (length bytes) bytes)
          (write_bytes mem base (suc (length bytes)) (b ∷ bytes)) (length bytes) (base + 1)
          (λ a h. let e : a - base ≡ suc (a - (base + 1)) = omega arith in rw e (ground arith))
        ∙ read_bytes-write_bytes mem (base + 1) bytes)
