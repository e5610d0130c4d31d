-- ===== src/Lpm/Preserve.antt =====
-- lpm_add and lpm_delete keep the table ordered, on every branch.
use ixmap.Base.{
  ℕ, zero, suc, ◌+◌, ◌-◌, ◌^◌, ◌≤◌, ◌<◌, ◌≡◌, refl, subst, some-injective, List, [], Bool, true,
  false, some, arith, ltb, if◌then◌else◌, update, Bool-cases, Option-cases, inl, inr,
}
use ixmap.Lpm.{
  LpmOps, LpmNode, leaf, inner, LpmTable, LpmState, mem_next, head_of, any_used, lpm_index,
  clear_low, prune,
}
use ixmap.Lpm.Add.{insert_range, open_level, lpm_add_here, lpm_add_below, lpm_add_top, lpm_add}
use ixmap.Lpm.Delete.{lpm_delete_below, lpm_delete}
use ixmap.Lpm.Entries.{
  LpmLaws, Descending, insert_entry, erase_entry, All-insert_entry, All-erase_entry,
  insert_entry-Descending, erase_entry-Descending,
}
use ixmap.Lpm.Order.{Fits, FitsTop, OrderedBelow, Level, IsOrdered}
use ixmap.Lpm.Loops.{Level-update, insert_range-Level, rollback_range-Level, delete_range-Level}

module _ {P S : Type 0} {ops : LpmOps P S} (laws : LpmLaws ops) (prefix : ℕ → ℕ) where
  open laws use {len_of}

  prune-OrderedBelow :
      (offset : ℕ) (head : List P) (nodes : ℕ → LpmNode P)
      → Level laws (Fits laws offset) (offset + 8) nodes
      → OrderedBelow laws offset (prune head nodes) × (head_of (prune head nodes) ≡ head)
  unfolding prune
  prune-OrderedBelow offset head nodes level = elim (Bool-cases (any_used 256 0 nodes)) [
    | inl e ↦ rw e (level, refl)
    | inr e ↦ rw e (tt, refl)
  ]

  pub Fits-insert_entry :
      (offset : ℕ) (x : P) (h : List P)
      → offset < len_of x
      → len_of x ≤ offset + 8
      → Fits laws offset h
      → Descending laws h × Fits laws offset (insert_entry laws x h)
  Fits-insert_entry offset x h lo hi (d, a, b) = (
    d,
    (
      insert_entry-Descending laws x h d,
      All-insert_entry laws _ x h lo a,
      All-insert_entry laws _ x h hi b,
    ),
  )

  Fits-erase_entry :
      (offset id len : ℕ) (h : List P)
      → Fits laws offset h
      → Fits laws offset (erase_entry laws h id len)
  Fits-erase_entry offset id len h (d, a, b) = (
    erase_entry-Descending laws h id len d,
    All-erase_entry laws _ h id len a,
    All-erase_entry laws _ h id len b,
  )

  FitsTop-erase_entry :
      (id len : ℕ) (h : List P) → FitsTop laws h → FitsTop laws (erase_entry laws h id len)
  FitsTop-erase_entry id len h (d, b) =
      (erase_entry-Descending laws h id len d, All-erase_entry laws _ h id len b)

  -- What `_lpm_add` and `_lpm_delete` keep of a node: its list, and the order below it.
  abbrev pub Kept : ℕ → LpmNode P → LpmNode P → Type 0
  Kept offset parent node = OrderedBelow laws offset node × (head_of node ≡ head_of parent)

  module _ (x : P) (id : ℕ) where
    lpm_add_here-Kept :
        (offset : ℕ) (parent : LpmNode P) (nodes : ℕ → LpmNode P) (st : LpmState S)
        → offset < len_of x
        → len_of x ≤ offset + 8
        → Level laws (Fits laws offset) (offset + 8) nodes
        → Kept offset parent
            (lpm_add_here ops prefix (len_of x) id x offset (head_of parent) nodes st).1
    unfolding lpm_add_here
    lpm_add_here-Kept offset parent nodes st lo hi level =
        let range = 2 ^ (8 - (len_of x - offset)) in
        let index = clear_low (lpm_index prefix offset 8) range in
        let r = insert_range ops id (len_of x) x range 0 index nodes st in
        let kept =
          insert_range-Level laws (Fits laws offset) (offset + 8) id x range 0 index nodes st
            (λ h f. Fits-insert_entry offset x h lo hi f) level in
        elim (Bool-cases r.done) [
          | inl e ↦ rw e (kept, refl)
          | inr e ↦ rw e (
              prune-OrderedBelow offset (head_of parent) _ (
                rollback_range-Level laws (Fits laws offset) (offset + 8) id (len_of x) 0 0 index
                  r.nodes r.state.store (Fits-erase_entry offset id (len_of x)) kept))
        ]

    pub open_level-Level :
        (offset : ℕ) (parent : LpmNode P) (st : LpmState S)
        → OrderedBelow laws offset parent
        → (nodes : ℕ → LpmNode P) → (open_level parent st).0 ≡ some nodes
        → Level laws (Fits laws offset) (offset + 8) nodes
    unfolding open_level
    open_level-Level offset (inner head level) st o nodes e =
        subst (Level laws (Fits laws offset) (offset + 8)) (some-injective _ _ e) o
    open_level-Level offset (leaf head) st o nodes e = elim (Bool-cases (mem_next st.allocs).0) [
      | inl got ↦
          subst (Level laws (Fits laws offset) (offset + 8)) {x = λ i. leaf []}
            (some-injective _ _ (rw got at e)) (λ i. ((tt, tt, tt), tt))
      | inr null ↦ absurd (ground arith)
    ]

    -- `_lpm_add` returns within the fuel, and keeps the order and the node's own list.
    pub lpm_add_below-Kept :
        (fuel offset : ℕ) (parent : LpmNode P) (st : LpmState S)
        → offset < len_of x
        → len_of x ≤ offset + fuel
        → OrderedBelow laws offset parent
        → (r : Bool × LpmNode P × LpmState S) × (lpm_add_below ops prefix
              (len_of x)
              id
              x
              fuel
              offset
              parent
              st
            ≡ some r)
          × Kept offset parent r.1
    unfolding lpm_add_below
    lpm_add_below-Kept zero offset parent st lo enough o = absurd (omega arith)
    lpm_add_below-Kept (suc fuel) offset parent st lo enough o =
        elim (Option-cases (open_level parent st).0) [
          | inl e ↦ ((false, parent, (open_level parent st).1), rw (e, lpm_add_below), (o, refl))
          | inr (nodes, e) ↦
              let level = open_level-Level offset parent st o nodes e in
              elim (Bool-cases (ltb 8 (len_of x - offset))) [
                | inr here ↦ (
                  lpm_add_here ops prefix (len_of x) id x offset (head_of parent) nodes
                      (open_level parent st).1,
                  rw (e, lpm_add_below, here),
                  lpm_add_here-Kept offset parent nodes (open_level parent st).1 lo (ground arith)
                      level,
                )
                | inl deep ↦
                    let index = lpm_index prefix offset 8 in
                    let ((done, child, st'), run, (below, same)) =
                      lpm_add_below-Kept fuel (offset + 8) (nodes index) (open_level parent st).1
                        (ground arith) (ground arith) (level index).1 in
                    let level' =
                      Level-update laws (Fits laws offset) (offset + 8) nodes index child level
                        (rw same (level index).0) below in
                    let nodes' = update nodes index child in
                    (
                      (
                        done,
                        if done
                            then inner (head_of parent) nodes'
                            else prune (head_of parent) nodes',
                        st',
                      ),
                      rw (e, lpm_add_below, deep, run),
                      elim (Bool-cases done) [
                        | inl d ↦ rw d (level', refl)
                        | inr d ↦ rw d (prune-OrderedBelow offset (head_of parent) _ level')
                      ],
                    )
              ]
        ]

    pub FitsTop-insert_entry :
        (h : List P)
        → len_of x ≤ 16
        → FitsTop laws h
        → Descending laws h × FitsTop laws (insert_entry laws x h)
    FitsTop-insert_entry h hi (d, b) =
        (d, (insert_entry-Descending laws x h d, All-insert_entry laws _ x h hi b))

    lpm_add_top-IsOrdered :
        (table : LpmTable P) (st : LpmState S)
        → len_of x ≤ 16
        → IsOrdered laws table
        → IsOrdered laws (lpm_add_top ops prefix (len_of x) id x table st).1
    unfolding lpm_add_top
    lpm_add_top-IsOrdered table st hi o =
        let range = 2 ^ (16 - len_of x) in
        let index = clear_low (lpm_index prefix 0 16) range in
        let r = insert_range ops id (len_of x) x range 0 index table.node st in
        let kept =
          insert_range-Level laws (FitsTop laws) 16 id x range 0 index table.node st
            (λ h f. FitsTop-insert_entry h hi f) o in
        elim (Bool-cases r.done) [
          | inl e ↦ rw e kept
          | inr e ↦ rw e (
              rollback_range-Level laws (FitsTop laws) 16 id (len_of x) r.count 0 index r.nodes
                r.state.store (FitsTop-erase_entry id (len_of x)) kept)
        ]

    -- lpm_add returns within its fuel, whatever the allocator does, and the table that it leaves is
    -- ordered again, on success and on failure.
    pub lpm_add-IsOrdered :
        (table : LpmTable P) (st : LpmState S)
        → IsOrdered laws table
        → (r : Bool × LpmTable P × LpmState S) × (lpm_add ops prefix (len_of x) id x table st
            ≡ some r)
          × IsOrdered laws r.1
    unfolding lpm_add
    lpm_add-IsOrdered table st o =
        let index = lpm_index prefix 0 16 in
        elim (Bool-cases (ltb 16 (len_of x))) [
          | inr top ↦ (
            lpm_add_top ops prefix (len_of x) id x table st,
            rw (top, lpm_add),
            lpm_add_top-IsOrdered table st (ground arith) o,
          )
          | inl deep ↦
              let ((done, node, st'), run, (below, same)) =
                lpm_add_below-Kept (len_of x) 16 (table.node index) st (ground arith) (omega arith)
                  (o index).1 in
              (
                (done, record { node = update table.node index node }, st'),
                rw (deep, lpm_add, run),
                Level-update laws (FitsTop laws) 16 table.node index node o (rw same (o index).0)
                    below,
              )
        ]

  finish-Kept :
      (offset : ℕ) (done : Bool) (head : List P) (nodes : ℕ → LpmNode P)
      → Level laws (Fits laws offset) (offset + 8) nodes
      → Kept offset (inner head nodes) (if done then prune head nodes else inner head nodes)
  finish-Kept offset true head nodes level = prune-OrderedBelow offset head nodes level
  finish-Kept offset false head nodes level = (level, refl)

  module _ (len id : ℕ) where
    pub lpm_delete_below-Kept :
        (offset : ℕ) (parent : LpmNode P) (store : S)
        → OrderedBelow laws offset parent
        → Kept offset parent (lpm_delete_below ops prefix len id offset parent store).1
    unfolding lpm_delete_below
    lpm_delete_below-Kept offset (leaf head) store o = (tt, refl)
    lpm_delete_below-Kept offset (inner head nodes) store o =
        let index = lpm_index prefix offset 8 in
        let (below, same) = lpm_delete_below-Kept (offset + 8) (nodes index) store (o index).1 in
        let deeper =
          Level-update laws (Fits laws offset) (offset + 8) nodes index _ o (rw same (o index).0)
            below in
        let range = 2 ^ (8 - (len - offset)) in
        let here =
          delete_range-Level laws (Fits laws offset) (offset + 8) id len range 0
            (clear_low index range) nodes store (Fits-erase_entry offset id len) o in
        elim (Bool-cases (ltb 8 (len - offset))) [
          | inl deep ↦ rw deep (finish-Kept offset _ head _ deeper)
          | inr shallow ↦ rw shallow (finish-Kept offset _ head _ here)
        ]

    -- lpm_delete leaves an ordered table, on success and on failure.
    pub lpm_delete-IsOrdered :
        (table : LpmTable P) (store : S)
        → IsOrdered laws table
        → IsOrdered laws (lpm_delete ops prefix len id table store).1
    unfolding lpm_delete
    lpm_delete-IsOrdered table store o =
        let index = lpm_index prefix 0 16 in
        let (below, same) = lpm_delete_below-Kept 16 (table.node index) store (o index).1 in
        let range = 2 ^ (16 - len) in
        elim (Bool-cases (ltb 16 len)) [
          | inl deep ↦
              rw deep (
                Level-update laws (FitsTop laws) 16 table.node index _ o (rw same (o index).0)
                  below)
          | inr top ↦ rw top (
              delete_range-Level laws (FitsTop laws) 16 id len range 0 (clear_low index range)
                table.node store (FitsTop-erase_entry id len) o)
        ]
