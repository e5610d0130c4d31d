-- ===== src/Lpm.antt =====
-- src/lpm.c and src/lpm.h: the longest-prefix-match trie, one level of 65536 nodes and below it
-- levels of 256. A node is its list of entries and, behind `next_table`, the nodes of the next
-- level; `leaf` is a node whose `next_table` is NULL. Arrays of nodes are functions of the index.
-- An `lpm_entry` is its `ptr`. `S` is what the callbacks `entry_pull` and `entry_put` change.
pub mod Add
pub mod Delete
pub mod Lookup
pub mod Walk
pub mod Entries
pub mod Order
pub mod Loops
pub mod Preserve
pub mod Place
pub mod Effect
pub mod Cover
pub mod Remove
pub mod Rollback
mod Examples
use ixmap.Base.{
  ℕ, zero, suc, ◌+◌, ◌-◌, ◌*◌, ◌/◌, ◌%◌, ◌^◌, List, [], ◌∷◌, ◌++◌, Bool, true, false, not, ◌||◌,
  Option, none, some, ◌==◌, leb, ltb, if◌then◌else◌, update,
}

-- The callbacks of `struct lpm_table`.
pub record LpmOps (P S : Type 0) : Type 0 where
  pub entry_identify : P → ℕ → ℕ → ℕ
  pub entry_compare : P → ℕ → ℕ
  pub entry_pull : P → S → S
  pub entry_put : P → S → S

pub data LpmNode (P : Type 0) : Type 0 where
  leaf : List P → LpmNode P
  inner : List P → (ℕ → LpmNode P) → LpmNode P

pub record LpmTable (P : Type 0) : Type 0 where
  pub node : ℕ → LpmNode P

-- The client's store, and how the coming calls of `ixmap_mem_alloc` end (none left: NULL).
pub record LpmState (S : Type 0) : Type 0 where
  pub store : S
  pub allocs : List Bool

abbrev pub mem_next : List Bool → Bool × List Bool
mem_next [] = (false, [])
mem_next (b ∷ bs) = (b, bs)

module _ {P : Type 0} where
  abbrev pub head_of : LpmNode P → List P
  head_of (leaf h) = h
  head_of (inner h nodes) = h

  abbrev pub has_next : LpmNode P → Bool
  has_next (leaf h) = false
  has_next (inner h nodes) = true

  abbrev pub with_head : LpmNode P → List P → LpmNode P
  with_head (leaf _) h = leaf h
  with_head (inner _ nodes) h = inner h nodes

  abbrev pub is_empty : List P → Bool
  is_empty [] = true
  is_empty (_ ∷ _) = false

  -- The list, if it holds an entry.
  abbrev pub non_empty : List P → Option (List P)
  non_empty [] = none
  non_empty (e ∷ head) = some (e ∷ head)

  abbrev pub first_entry : List P → Option P
  first_entry [] = none
  first_entry (e ∷ _) = some e

  -- `node->next_table || !hlist_empty(&node->head)` for one of the `n` nodes from `i` on.
  pub any_used : ℕ → ℕ → (ℕ → LpmNode P) → Bool
  any_used zero i nodes = false
  any_used (suc n) i nodes =
      (has_next (nodes i) || not (is_empty (head_of (nodes i)))) || any_used n (suc i) nodes

unfoldable pub lpm_init : {P : Type 0} → LpmTable P
lpm_init = record { node = λ i. leaf [] }

-- `prefix` is given by its 32-bit words, after `ntohl`. The offsets are multiples of 8 and the
-- ranges 8 or 16, so that the field lies in one word.
unfoldable pub lpm_index : (ℕ → ℕ) → ℕ → ℕ → ℕ
lpm_index prefix offset range =
    let shift = 32 - (offset % 32 + range) in (prefix (offset / 32) / 2 ^ shift) % 2 ^ range

-- `index &= ~(range - 1)` for a power of two; `index | i` is then `+`.
abbrev pub clear_low : ℕ → ℕ → ℕ
clear_low index range = index / range * range

module _ {P S : Type 0} (ops : LpmOps P S) where
  -- The loop of `lpm_entry_insert`: `none` if the entry exists, else `prior` as a position.
  pub find_prior : List P → ℕ → Option ℕ → ℕ → ℕ → Option (Option ℕ)
  find_prior [] pos prior id prefix_len = some prior
  find_prior (e ∷ head) pos prior id prefix_len =
      let rest =
        find_prior head (suc pos) (if ops.entry_compare e prefix_len == 0 then prior else some pos)
          id prefix_len in
      if ops.entry_identify e id prefix_len == 0 then none else rest

  -- `hlist_add_behind` the node at a position.
  pub add_behind : List P → ℕ → P → List P
  add_behind [] pos x = x ∷ []
  add_behind (e ∷ head) zero x = e ∷ x ∷ head
  add_behind (e ∷ head) (suc pos) x = e ∷ add_behind head pos x

  -- `none` is the return value -1.
  unfoldable pub lpm_entry_insert : List P → ℕ → ℕ → P → S → Option (List P × S)
  unfolding find_prior add_behind
  lpm_entry_insert head id prefix_len x store = elim (find_prior head 0 none id prefix_len) [
    | none ↦ none
    | some none ↦ some (x ∷ head, ops.entry_pull x store)
    | some (some pos) ↦ some (add_behind head pos x, ops.entry_pull x store)
  ]

  unfoldable pub lpm_entry_delete : List P → ℕ → ℕ → S → Option (List P × S)
  lpm_entry_delete [] id prefix_len store = none
  lpm_entry_delete (e ∷ head) id prefix_len store =
      let rest = lpm_entry_delete head id prefix_len store in
      if ops.entry_identify e id prefix_len == 0
      then some (head, ops.entry_put e store)
      else elim rest [ none ↦ none | some (head', store') ↦ some (e ∷ head', store') ]

  unfoldable pub lpm_entry_delete_all : List P → S → S
  lpm_entry_delete_all [] store = store
  lpm_entry_delete_all (e ∷ head) store = lpm_entry_delete_all head (ops.entry_put e store)

module _ {P : Type 0} where
  -- The code at `err_lpm_add`: the level is freed if no node of it is used.
  pub prune : List P → (ℕ → LpmNode P) → LpmNode P
  prune head nodes = if any_used 256 0 nodes then inner head nodes else leaf head
