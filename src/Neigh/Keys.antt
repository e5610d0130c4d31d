-- ===== src/Neigh/Keys.antt =====
-- The hash and comparison callbacks of src/neigh.c, with the laws that the hash table relies on.
use ixmap.Base.{
  ℕ, ◌+◌, ◌-◌, ◌*◌, ◌/◌, ◌%◌, ◌^◌, ◌<◌, ◌≡◌, refl, sym, ◌∙◌, ap₂, bit_xor, eq_of_bit_xor,
  bit_xor_self, arith, ◌==◌, if◌then◌else◌,
}
use ixmap.Hash.{KeyOps, hash_bit, hash_size}

-- `uint32_t dst_addr[4]`.
pub record DstAddr : Type 0 where
  pub w0 : ℕ
  pub w1 : ℕ
  pub w2 : ℕ
  pub w3 : ℕ

abbrev pub golden_ratio_prime_32 : ℕ
golden_ratio_prime_32 = 0x9e37_0001

abbrev pub golden_ratio_prime_64 : ℕ
golden_ratio_prime_64 = 0x9e37_ffff_fffc_0001

-- `((uint64_t *)key)[0]` and `[1]`, on a little-endian host.
abbrev pub quad0 : DstAddr → ℕ
quad0 key = key.w0 + 2 ^ 32 * key.w1

abbrev pub quad1 : DstAddr → ℕ
quad1 key = key.w2 + 2 ^ 32 * key.w3

unfoldable pub neigh_key_generate_v4 : DstAddr → ℕ → ℕ
neigh_key_generate_v4 key bit_len =
    let hash = (key.w0 * golden_ratio_prime_32) % 2 ^ 32 in hash / 2 ^ (32 - bit_len)

pub neigh_key_generate_v6 : DstAddr → ℕ → ℕ
neigh_key_generate_v6 key bit_len =
    let product = (quad0 key * quad1 key) % 2 ^ 64 in
    let hash = (product * golden_ratio_prime_64) % 2 ^ 64 in (hash / 2 ^ (64 - bit_len)) % 2 ^ 32

unfoldable pub neigh_key_compare_v4 : DstAddr → DstAddr → ℕ
neigh_key_compare_v4 key_tgt key_ent = if bit_xor key_tgt.w0 key_ent.w0 == 0 then 0 else 1

pub neigh_key_compare_v6 : DstAddr → DstAddr → ℕ
neigh_key_compare_v6 key_tgt key_ent =
    if bit_xor (quad0 key_tgt) (quad0 key_ent) == 0
    then if bit_xor (quad1 key_tgt) (quad1 key_ent) == 0 then 0 else 1
    else 1

-- The v4 comparison gives 0 exactly for addresses with one first word, and the v6 comparison
-- exactly for addresses with the same two quad words.
pub compare_v4_iff :
    (a b : DstAddr)
    → (neigh_key_compare_v4 a b ≡ 0 → a.w0 ≡ b.w0) × (a.w0 ≡ b.w0 → neigh_key_compare_v4 a b ≡ 0)
unfolding neigh_key_compare_v4
compare_v4_iff a b =
    (ground (arith, eq_of_bit_xor a.w0 b.w0), λ e. ground (arith, bit_xor_self a.w0))

pub compare_v6_iff :
    (a b : DstAddr)
    → (neigh_key_compare_v6 a b ≡ 0 → (quad0 a ≡ quad0 b) × (quad1 a ≡ quad1 b))
      × (quad0 a ≡ quad0 b → quad1 a ≡ quad1 b → neigh_key_compare_v6 a b ≡ 0)
unfolding neigh_key_compare_v6
compare_v6_iff a b = (
  ground (arith, eq_of_bit_xor (quad0 a) (quad0 b), eq_of_bit_xor (quad1 a) (quad1 b)),
  λ e f. ground (arith, bit_xor_self (quad0 a), bit_xor_self (quad1 a)),
)

pub generate_v4_congr :
    (a b : DstAddr)
    → neigh_key_compare_v4 a b ≡ 0
    → neigh_key_generate_v4 a hash_bit ≡ neigh_key_generate_v4 b hash_bit
unfolding neigh_key_generate_v4
generate_v4_congr a b h = rw ((compare_v4_iff a b).0 h)

pub generate_v4_lt : (a : DstAddr) → neigh_key_generate_v4 a hash_bit < hash_size
unfolding neigh_key_generate_v4
generate_v4_lt a = omega arith

pub generate_v6_congr :
    (a b : DstAddr)
    → neigh_key_compare_v6 a b ≡ 0
    → neigh_key_generate_v6 a hash_bit ≡ neigh_key_generate_v6 b hash_bit
unfolding neigh_key_generate_v6
generate_v6_congr a b h =
    let (e, f) = (compare_v6_iff a b).0 h in
    ap₂
      (λ x y.
        ((((x * y) % 2 ^ 64) * golden_ratio_prime_64) % 2 ^ 64 / 2 ^ (64 - hash_bit)) % 2 ^ 32)
      e f

pub generate_v6_lt : (a : DstAddr) → neigh_key_generate_v6 a hash_bit < hash_size
unfolding neigh_key_generate_v6
generate_v6_lt a = omega arith

-- The callbacks that neigh_alloc stores for AF_INET.
abbrev pub key_ops_v4 : KeyOps DstAddr
key_ops_v4 = record {
  hash_key_generate = neigh_key_generate_v4;
  hash_key_compare = neigh_key_compare_v4;
  compare_refl = λ a. (compare_v4_iff a a).1 refl;
  compare_symm = λ a b h. (compare_v4_iff b a).1 (sym ((compare_v4_iff a b).0 h));
  compare_trans =
      λ a b c h k. (compare_v4_iff a c).1 ((compare_v4_iff a b).0 h ∙ (compare_v4_iff b c).0 k);
  generate_congr = generate_v4_congr;
  generate_lt = generate_v4_lt;
}

-- The callbacks that neigh_alloc stores for AF_INET6.
abbrev pub key_ops_v6 : KeyOps DstAddr
key_ops_v6 = record {
  hash_key_generate = neigh_key_generate_v6;
  hash_key_compare = neigh_key_compare_v6;
  compare_refl = λ a. (compare_v6_iff a a).1 refl refl;
  compare_symm =
      λ a b h. let (e, f) = (compare_v6_iff a b).0 h in (compare_v6_iff b a).1 (sym e) (sym f);
  compare_trans = λ a b c h k.
      let (e, f) = (compare_v6_iff a b).0 h in
      let (e', f') = (compare_v6_iff b c).0 k in (compare_v6_iff a c).1 (e ∙ e') (f ∙ f');
  generate_congr = generate_v6_congr;
  generate_lt = generate_v6_lt;
}
