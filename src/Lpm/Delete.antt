-- ===== src/Lpm/Delete.antt =====
-- Deleting a prefix, and everything: `lpm_delete`, `_lpm_delete`, `lpm_delete_all` and
-- `_lpm_delete_all` of src/lpm.c.
use ixmap.Base.{
  ℕ, zero, suc, ◌+◌, ◌-◌, ◌^◌, [], Bool, true, false, none, some, ltb, if◌then◌else◌, update,
}
use ixmap.Lpm.{
  LpmOps, LpmNode, leaf, inner, LpmTable, head_of, with_head, lpm_index, clear_low,
  lpm_entry_delete, lpm_entry_delete_all, prune,
}

module _ {P S : Type 0} (ops : LpmOps P S) (id prefix_len : ℕ) where
  -- The loop of `lpm_delete` and `_lpm_delete`, which stops at the first node without the entry.
  unfoldable pub delete_range : ℕ → ℕ → ℕ → (ℕ → LpmNode P) → S → Bool × (ℕ → LpmNode P) × S
  delete_range zero i index nodes store = (true, nodes, store)
  delete_range (suc n) i index nodes store =
      let node = nodes (index + i) in
      elim (lpm_entry_delete ops (head_of node) id prefix_len store) [
        | none ↦ (false, nodes, store)
        | some (head, store') ↦
            delete_range n (suc i) index (update nodes (index + i) (with_head node head)) store'
      ]

module _ {P S : Type 0} (ops : LpmOps P S) (prefix : ℕ → ℕ) (prefix_len id : ℕ) where
  -- `_lpm_delete`; a node with no level below it is the error.
  unfoldable pub lpm_delete_below : ℕ → LpmNode P → S → Bool × LpmNode P × S
  lpm_delete_below offset (leaf head) store = (false, leaf head, store)
  lpm_delete_below offset (inner head nodes) store =
      let index = lpm_index prefix offset 8 in
      let deeper = lpm_delete_below (offset + 8) (nodes index) store in
      let range = 2 ^ (8 - (prefix_len - offset)) in
      let here = delete_range ops id prefix_len range 0 (clear_low index range) nodes store in
      let (done, nodes', store') : Bool × (ℕ → LpmNode P) × S =
        if ltb 8 (prefix_len - offset)
        then (deeper.0, update nodes index deeper.1, deeper.2)
        else here in
      (done, if done then prune head nodes' else inner head nodes', store')

  unfoldable pub lpm_delete : LpmTable P → S → Bool × LpmTable P × S
  lpm_delete table store =
      let index = lpm_index prefix 0 16 in
      let (done, node, store') = lpm_delete_below 16 (table.node index) store in
      let range = 2 ^ (16 - prefix_len) in
      let (done₁, nodes, store₁) =
        delete_range ops id prefix_len range 0 (clear_low index range) table.node store in
      if ltb 16 prefix_len
      then (done, record { node = update table.node index node }, store')
      else (done₁, record { node = nodes }, store₁)

-- `for(i = 0; i < n; i++)` over a store.
pub for_nodes : {S : Type 0} → ℕ → ℕ → (ℕ → S → S) → S → S
for_nodes zero i body store = store
for_nodes (suc n) i body store = for_nodes n (suc i) body (body i store)

module _ {P S : Type 0} (ops : LpmOps P S) where
  -- `_lpm_delete_all`: what the callbacks do; the level below `parent` is freed.
  unfoldable pub lpm_delete_all_below : LpmNode P → S → S
  unfolding for_nodes
  lpm_delete_all_below (leaf head) store = store
  lpm_delete_all_below (inner head nodes) store =
      for_nodes 256 0
        (λ i s. lpm_entry_delete_all ops (head_of (nodes i)) (lpm_delete_all_below (nodes i) s))
        store

  unfoldable pub lpm_delete_all : LpmTable P → S → LpmTable P × S
  lpm_delete_all table store = (
    record { node = λ i. if ltb i 65536 then leaf [] else table.node i },
    for_nodes 65536 0
        (λ i s.
          lpm_entry_delete_all ops (head_of (table.node i)) (lpm_delete_all_below (table.node i) s))
        store,
  )
