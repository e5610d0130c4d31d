-- ===== src/Hash/Chain.antt =====
-- One chain of the table: what `find_entry` and `unlink` do to it.
use ixmap.Base.{
  ℕ, suc, ◌+◌, ◌≤◌, ◌≡◌, refl, List, [], ◌∷◌, ◌++◌, none, some, arith, ◌==◌, if◌then◌else◌,
}
use ixmap.Hash.{KeyOps, HashEntry, find_entry, unlink}

module _ {K : Type 0} (ops : KeyOps K) where
  compare_congr :
      (a b c : K)
      → ops.hash_key_compare a b ≡ 0
      → (ops.hash_key_compare a c == 0) ≡ (ops.hash_key_compare b c == 0)
  compare_congr a b c e =
      ground (arith, ops.compare_symm a b, ops.compare_trans a b c, ops.compare_trans b a c)

module _ {K V : Type 0} (ops : KeyOps K) where
  -- How many entries of the chain have the key.
  unfoldable pub count_key : K → List (HashEntry K V) → ℕ
  count_key key [] = 0
  count_key key (entry ∷ chain) =
      if ops.hash_key_compare key entry.key == 0
      then suc (count_key key chain)
      else count_key key chain

  find_entry_congr :
      (a b : K) (chain : List (HashEntry K V))
      → ops.hash_key_compare a b ≡ 0
      → find_entry ops a chain ≡ find_entry ops b chain
  unfolding find_entry
  find_entry_congr a b [] e = refl
  find_entry_congr a b (entry ∷ chain) e =
      ground (arith, compare_congr ops a b entry.key, find_entry_congr a b chain)

  pub count_key_congr :
      (a b : K) (chain : List (HashEntry K V))
      → ops.hash_key_compare a b ≡ 0
      → count_key a chain ≡ count_key b chain
  unfolding count_key
  count_key_congr a b [] e = refl
  count_key_congr a b (entry ∷ chain) e =
      ground (arith, compare_congr ops a b entry.key, count_key_congr a b chain)

  pub count_key_of_none :
      (key : K) (chain : List (HashEntry K V))
      → find_entry ops key chain ≡ none
      → count_key key chain ≡ 0
  unfolding find_entry count_key
  count_key_of_none key [] h = refl
  count_key_of_none key (entry ∷ chain) h = ground (arith, count_key_of_none key chain)

  pub count_key_of_some :
      (key : K) (chain : List (HashEntry K V)) (entry : HashEntry K V)
      → find_entry ops key chain ≡ some entry
      → 1 ≤ count_key key chain
  unfolding find_entry count_key
  count_key_of_some key [] entry h = cc
  count_key_of_some key (entry' ∷ chain) entry h = ground (arith, count_key_of_some key chain entry)

  find_entry-eq-none :
      (key : K) (chain : List (HashEntry K V))
      → count_key key chain ≡ 0
      → find_entry ops key chain ≡ none
  unfolding find_entry count_key
  find_entry-eq-none key [] h = refl
  find_entry-eq-none key (entry ∷ chain) h = ground (arith, find_entry-eq-none key chain)

  pub find_entry-unlink :
      (key q : K) (chain : List (HashEntry K V))
      → count_key q chain ≤ 1
      → find_entry ops q (unlink ops key chain)
        ≡ (if ops.hash_key_compare q key == 0 then none else find_entry ops q chain)
  unfolding find_entry count_key unlink
  find_entry-unlink key q [] h = ground arith
  find_entry-unlink key q (entry ∷ chain) h = ground (
    arith,
    find_entry-unlink key q chain,
    find_entry-eq-none q chain,
    compare_congr ops q key entry.key,
    ops.compare_symm key entry.key,
    ops.compare_trans q entry.key key,
  )

  pub count_key-unlink :
      (key q : K) (chain : List (HashEntry K V))
      → count_key q (unlink ops key chain) ≤ count_key q chain
  unfolding count_key unlink
  count_key-unlink key q [] = omega arith
  count_key-unlink key q (entry ∷ chain) = ground (arith, count_key-unlink key q chain)

  pub count_key-append :
      (q : K) (xs ys : List (HashEntry K V))
      → count_key q (xs ++ ys) ≡ count_key q xs + count_key q ys
  unfolding count_key
  count_key-append q [] ys = omega arith
  count_key-append q (x ∷ xs) ys = ground (arith, count_key-append q xs ys)
