-- ===== src/Hash.antt =====
-- src/hash.c and src/hash.h: a chained hash table over keys that the callbacks compare.
-- A table is its 65536 heads; `list_head` arrays are functions of the index. An entry is what
-- `struct hash_entry` stands in: the key that `hash_entry_init` stores and the client's payload.
-- What `hash_entry_delete` is called on is returned beside the new table.
pub mod Chain
pub mod Laws
mod Examples
use ixmap.Base.{
  ℕ, zero, suc, ◌^◌, ◌<◌, ◌≡◌, List, [], ◌∷◌, ◌++◌, Option, none, some, ◌==◌, if◌then◌else◌, update,
}

abbrev pub hash_bit : ℕ
hash_bit = 16

abbrev pub hash_size : ℕ
hash_size = 2 ^ hash_bit

-- The callbacks `hash_key_generate` and `hash_key_compare`, with what the table relies on:
-- comparison is an equivalence (0 for equal keys) and equal keys have one bucket, in range.
pub record KeyOps (K : Type 0) : Type 0 where
  pub hash_key_generate : K → ℕ → ℕ
  pub hash_key_compare : K → K → ℕ
  pub compare_refl : (a : K) → hash_key_compare a a ≡ 0
  pub compare_symm : (a b : K) → hash_key_compare a b ≡ 0 → hash_key_compare b a ≡ 0
  pub compare_trans :
      (a b c : K) → hash_key_compare a b ≡ 0 → hash_key_compare b c ≡ 0 → hash_key_compare a c ≡ 0
  pub generate_congr :
      (a b : K)
      → hash_key_compare a b ≡ 0
      → hash_key_generate a hash_bit ≡ hash_key_generate b hash_bit
  pub generate_lt : (a : K) → hash_key_generate a hash_bit < hash_size

pub record HashEntry (K V : Type 0) : Type 0 where
  pub key : K
  pub value : V

pub record HashTable (K V : Type 0) : Type 0 where
  pub head : ℕ → List (HashEntry K V)

pub hash_init : {K V : Type 0} → HashTable K V
hash_init = record { head = λ i. [] }

pub hash_entry_init : {K V : Type 0} → K → V → HashEntry K V
hash_entry_init key value = record { key = key; value = value }

module _ {K V : Type 0} (ops : KeyOps K) where
  -- The loop of `hash_add`, `hash_delete` and `hash_lookup`: the first entry with the key.
  unfoldable pub find_entry : K → List (HashEntry K V) → Option (HashEntry K V)
  find_entry key [] = none
  find_entry key (entry ∷ chain) =
      if ops.hash_key_compare key entry.key == 0 then some entry else find_entry key chain

  -- `hlist_del_init` of the entry that `find_entry` found.
  pub unlink : K → List (HashEntry K V) → List (HashEntry K V)
  unlink key [] = []
  unlink key (entry ∷ chain) =
      if ops.hash_key_compare key entry.key == 0 then chain else entry ∷ unlink key chain

  -- `none` is the return value -1.
  pub hash_add : HashTable K V → K → V → Option (HashTable K V)
  hash_add table key value =
      let entry_new = hash_entry_init key value in
      let hash_key = ops.hash_key_generate key hash_bit in
      elim (find_entry key (table.head hash_key)) [
        | some entry ↦ none
        | none ↦
            some (record { head = update table.head hash_key (entry_new ∷ table.head hash_key) })
      ]

  pub hash_delete : HashTable K V → K → Option (HashEntry K V × HashTable K V)
  hash_delete table key =
      let hash_key = ops.hash_key_generate key hash_bit in
      elim (find_entry key (table.head hash_key)) [
        | none ↦ none
        | some target ↦ some (
          target,
          record { head = update table.head hash_key (unlink key (table.head hash_key)) },
        )
      ]

  unfoldable pub hash_lookup : HashTable K V → K → Option (HashEntry K V)
  hash_lookup table key = find_entry key (table.head (ops.hash_key_generate key hash_bit))

-- `for(i = 0; i < n; i++)` over the heads: every entry is deleted, first to last.
pub delete_heads : {K V : Type 0} → ℕ → ℕ → HashTable K V → List (HashEntry K V) × HashTable K V
delete_heads zero i table = ([], table)
delete_heads (suc n) i table =
    let (deleted, table') = delete_heads n (suc i) (record { head = update table.head i [] }) in
    (table.head i ++ deleted, table')

pub hash_delete_all : {K V : Type 0} → HashTable K V → List (HashEntry K V) × HashTable K V
hash_delete_all table = delete_heads hash_size 0 table
