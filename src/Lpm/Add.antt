-- ===== src/Lpm/Add.antt =====
-- Adding a prefix: `lpm_add` and `_lpm_add` of src/lpm.c.
use ixmap.Base.{
  ℕ, zero, suc, ◌+◌, ◌-◌, ◌^◌, List, [], Bool, true, false, Option, none, some, ltb, if◌then◌else◌,
  update,
}
use ixmap.Lpm.{
  LpmOps, LpmNode, leaf, inner, LpmTable, LpmState, mem_next, head_of, with_head, lpm_index,
  clear_low, lpm_entry_insert, lpm_entry_delete, prune,
}

-- What the insertion loop leaves: whether it ran to its end, the nodes, the state, and how many
-- entries it had inserted.
pub record Inserted (P S : Type 0) : Type 0 where
  pub done : Bool
  pub nodes : ℕ → LpmNode P
  pub state : LpmState S
  pub count : ℕ

module _ {P S : Type 0} (ops : LpmOps P S) (id prefix_len : ℕ) where
  -- `for(i = 0; i < range; i++)` of `lpm_add` and `_lpm_add`, with `n` rounds to go.
  unfoldable pub insert_range : P → ℕ → ℕ → ℕ → (ℕ → LpmNode P) → LpmState S → Inserted P S
  insert_range x zero i index nodes st = record {
    done = true;
    nodes = nodes;
    state = st;
    count = i;
  }
  insert_range x (suc n) i index nodes st =
      let node = nodes (index + i) in
      let st' = record st { allocs = (mem_next st.allocs).1 } in
      let stop : Inserted P S = record { done = false; nodes = nodes; state = st'; count = i } in
      elim (mem_next st.allocs).0 [
        | false ↦ stop
        | true ↦ elim (lpm_entry_insert ops (head_of node) id prefix_len x st.store) [
          | none ↦ stop
          | some (head, store) ↦
              insert_range x n (suc i) index (update nodes (index + i) (with_head node head))
                (record st' { store = store })
        ]
      ]

  -- The loop behind `err_lpm_add_self`: the results of the deletions are not looked at.
  unfoldable pub rollback_range : ℕ → ℕ → ℕ → (ℕ → LpmNode P) → S → (ℕ → LpmNode P) × S
  rollback_range zero i index nodes store = (nodes, store)
  rollback_range (suc n) i index nodes store =
      let node = nodes (index + i) in
      elim (lpm_entry_delete ops (head_of node) id prefix_len store) [
        | none ↦ rollback_range n (suc i) index nodes store
        | some (head, store') ↦
            rollback_range n (suc i) index (update nodes (index + i) (with_head node head)) store'
      ]

module _ {P : Type 0} where
  -- The level below `parent`, allocated and initialised if there is none; `none`: no memory.
  unfoldable pub open_level :
      {S : Type 0} → LpmNode P → LpmState S → Option (ℕ → LpmNode P) × LpmState S
  open_level (inner head nodes) st = (some nodes, st)
  open_level (leaf head) st = (
    if (mem_next st.allocs).0 then some (λ i. leaf []) else none,
    record st { allocs = (mem_next st.allocs).1 },
  )

module _ {P S : Type 0} (ops : LpmOps P S) (prefix : ℕ → ℕ) (prefix_len id : ℕ) where
  -- `_lpm_add` where the prefix ends in this level. `entry_allocated` is not counted up in this
  -- function: the loop at `err_lpm_add_self` makes no round.
  unfoldable pub lpm_add_here :
      P → ℕ → List P → (ℕ → LpmNode P) → LpmState S → Bool × LpmNode P × LpmState S
  lpm_add_here x offset head nodes st =
      let range = 2 ^ (8 - (prefix_len - offset)) in
      let index = clear_low (lpm_index prefix offset 8) range in
      let r = insert_range ops id prefix_len x range 0 index nodes st in
      let (nodes', store') = rollback_range ops id prefix_len 0 0 index r.nodes r.state.store in
      if r.done
      then (true, inner head r.nodes, r.state)
      else (false, prune head nodes', record { store = store'; allocs = r.state.allocs })

  -- `_lpm_add` on `parent`, with the return value (true for 0). `fuel` bounds the levels; `none`
  -- means that it ran out. `prefix_len` is above `offset` at every call.
  unfoldable pub lpm_add_below :
      P → ℕ → ℕ → LpmNode P → LpmState S → Option (Bool × LpmNode P × LpmState S)
  lpm_add_below x zero offset parent st = none
  lpm_add_below x (suc fuel) offset parent st =
      let opened = open_level parent st in
      let index = lpm_index prefix offset 8 in
      elim opened.0 [
        | none ↦ some (false, parent, opened.1)
        | some nodes ↦ elim (ltb 8 (prefix_len - offset)) [
          | false ↦ some (lpm_add_here x offset (head_of parent) nodes opened.1)
          | true ↦ elim (lpm_add_below x fuel (offset + 8) (nodes index) opened.1) [
            | none ↦ none
            | some (done, child, st') ↦
                let nodes' = update nodes index child in
                some (
                  done,
                  if done then inner (head_of parent) nodes' else prune (head_of parent) nodes',
                  st',
                )
          ]
        ]
      ]

  -- `lpm_add` where the prefix ends in the first level.
  unfoldable pub lpm_add_top : P → LpmTable P → LpmState S → Bool × LpmTable P × LpmState S
  lpm_add_top x table st =
      let range = 2 ^ (16 - prefix_len) in
      let index = clear_low (lpm_index prefix 0 16) range in
      let r = insert_range ops id prefix_len x range 0 index table.node st in
      let (nodes', store') =
        rollback_range ops id prefix_len r.count 0 index r.nodes r.state.store in
      if r.done
      then (true, record { node = r.nodes }, r.state)
      else (false, record { node = nodes' }, record { store = store'; allocs = r.state.allocs })

  unfoldable pub lpm_add : P → LpmTable P → LpmState S → Option (Bool × LpmTable P × LpmState S)
  lpm_add x table st =
      let index = lpm_index prefix 0 16 in
      if ltb 16 prefix_len
      then elim (lpm_add_below x prefix_len 16 (table.node index) st) [
        | none ↦ none
        | some (done, node, st') ↦ some (done, record { node = update table.node index node }, st')
      ]
      else some (lpm_add_top x table st)
