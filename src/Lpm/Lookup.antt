-- ===== src/Lpm/Lookup.antt =====
-- Searching and walking the trie: `lpm_lookup`, `_lpm_lookup`, `lpm_traverse` and `_lpm_traverse`
-- of src/lpm.c.
use ixmap.Base.{ℕ, zero, suc, ◌+◌, ◌-◌, ◌^◌, List, [], ◌∷◌, Option, none, some, ltb, if◌then◌else◌}
use ixmap.Lpm.{
  LpmNode, leaf, inner, LpmTable, head_of, has_next, is_empty, non_empty, first_entry, lpm_index,
  clear_low,
}

module _ {P : Type 0} (dst : ℕ → ℕ) where
  -- `_lpm_lookup` on `parent`, which is called only where the level below is there.
  unfoldable pub lpm_lookup_below : ℕ → LpmNode P → Option (List P)
  lpm_lookup_below offset (leaf head) = none
  lpm_lookup_below offset (inner head nodes) =
      let node = nodes (lpm_index dst offset 8) in
      let deeper = lpm_lookup_below (offset + 8) (nodes (lpm_index dst offset 8)) in
      if has_next node
      then elim deeper [ some h ↦ some h | none ↦ non_empty (head_of node) ]
      else non_empty (head_of node)

  unfoldable pub lpm_lookup : LpmTable P → Option P
  lpm_lookup table =
      let node = table.node (lpm_index dst 0 16) in
      let head : List P =
        if has_next node
        then elim (lpm_lookup_below 16 node) [ some h ↦ h | none ↦ head_of node ]
        else head_of node in
      first_entry head

-- The lists that `entry_dump` is called on by one loop of `lpm_traverse` or `_lpm_traverse`.
unfoldable pub dump_range : {P : Type 0} → ℕ → ℕ → (ℕ → LpmNode P) → List (List P)
dump_range zero i nodes = []
dump_range (suc n) i nodes =
    let rest = dump_range n (suc i) nodes in
    if is_empty (head_of (nodes i)) then rest else head_of (nodes i) ∷ rest

module _ {P : Type 0} (prefix : ℕ → ℕ) (prefix_len : ℕ) where
  unfoldable pub lpm_traverse_below : ℕ → LpmNode P → List (List P)
  lpm_traverse_below offset (leaf head) = []
  lpm_traverse_below offset (inner head nodes) =
      let index = lpm_index prefix offset 8 in
      let deeper = lpm_traverse_below (offset + 8) (nodes (lpm_index prefix offset 8)) in
      let range = 2 ^ (8 - (prefix_len - offset)) in
      if ltb 8 (prefix_len - offset) then deeper else dump_range range (clear_low index range) nodes

  unfoldable pub lpm_traverse : LpmTable P → List (List P)
  lpm_traverse table =
      let index = lpm_index prefix 0 16 in
      let range = 2 ^ (16 - prefix_len) in
      if ltb 16 prefix_len
      then lpm_traverse_below 16 (table.node index)
      else dump_range range (clear_low index range) table.node
