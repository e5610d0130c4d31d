-- ===== src/Lpm/Loops.antt =====
-- The loops over one level of nodes keep its order.
use ixmap.Base.{
  ℕ, zero, suc, ◌+◌, ◌≡◌, List, true, false, none, some, ◌==◌, update, Bool-cases, ◌⊎◌, inl, inr,
}
use ixmap.Lpm.{
  LpmOps, LpmNode, leaf, inner, LpmState, mem_next, head_of, with_head, lpm_entry_delete,
}
use ixmap.Lpm.Add.{insert_range, rollback_range}
use ixmap.Lpm.Delete.{delete_range}
use ixmap.Lpm.Entries.{
  LpmLaws, Descending, has_entry, insert_entry, erase_entry, lpm_entry_insert-eq,
  lpm_entry_delete-eq,
}
use ixmap.Lpm.Walk.{head_of-with_head}
use ixmap.Lpm.Order.{OrderedBelow, Level}

-- What a call of lpm_entry_delete on any list gives.
module _ {P S : Type 0} {ops : LpmOps P S} (laws : LpmLaws ops) where
  pub lpm_entry_delete_cases :
      (head : List P) (id len : ℕ) (store : S)
      → ((has_entry laws head id len ≡ false) × (lpm_entry_delete ops head id len store ≡ none))
        ⊎ ((store' : S) × (has_entry laws head id len ≡ true)
            × (lpm_entry_delete ops head id len store
                ≡ some (erase_entry laws head id len, store')))
  lpm_entry_delete_cases head id len store =
      let (absent, present) = lpm_entry_delete-eq laws head id len store in
      elim (Bool-cases (has_entry laws head id len)) [
        | inl e ↦ let (store', run) = present e in inr (store', e, run)
        | inr e ↦ inl (e, absent e)
      ]

  pub Level-update :
      (Q : List P → Type 0) (offset : ℕ) (nodes : ℕ → LpmNode P) (j : ℕ) (node : LpmNode P)
      → Level laws Q offset nodes
      → Q (head_of node)
      → OrderedBelow laws offset node
      → Level laws Q offset (update nodes j node)
  Level-update Q offset nodes j node level q o i = elim (Bool-cases (i == j)) [
    | inl e ↦ rw e (q, o)
    | inr e ↦ rw e (level i)
  ]

  OrderedBelow-with_head :
      (offset : ℕ) (node : LpmNode P) (head : List P)
      → OrderedBelow laws offset node
      → OrderedBelow laws offset (with_head node head)
  OrderedBelow-with_head offset (leaf h) head o = tt
  OrderedBelow-with_head offset (inner h nodes) head o = o

  -- Changing the list of one node, to one of which `Q` holds.
  pub Level-with_head :
      (Q : List P → Type 0) (offset : ℕ) (nodes : ℕ → LpmNode P) (j : ℕ) (head : List P)
      → Level laws Q offset nodes
      → Q head
      → Level laws Q offset (update nodes j (with_head (nodes j) head))
  Level-with_head Q offset nodes j head level q =
      Level-update Q offset nodes j _ level (rw (head_of-with_head (nodes j) head) q)
        (OrderedBelow-with_head offset (nodes j) head (level j).1)

-- The loops over one level, for lists of which a predicate `Q` holds that insertion of `x` and
-- deletion keep.
module _ {P S : Type 0} {ops : LpmOps P S} (laws : LpmLaws ops) (Q : List P → Type 0)
    (offset : ℕ) where
  open laws use {len_of}

  pub rollback_range-Level :
      (id len n i index : ℕ) (nodes : ℕ → LpmNode P) (store : S)
      → ((h : List P) → Q h → Q (erase_entry laws h id len))
      → Level laws Q offset nodes
      → Level laws Q offset (rollback_range ops id len n i index nodes store).0
  unfolding rollback_range
  rollback_range-Level id len zero i index nodes store keep level = level
  rollback_range-Level id len (suc n) i index nodes store keep level =
      elim (lpm_entry_delete_cases laws (head_of (nodes (index + i))) id len store) [
        | inl (absent, e) ↦
            rw (e, rollback_range)
              (rollback_range-Level id len n (suc i) index nodes store keep level)
        | inr (store', present, e) ↦
            rw (e, rollback_range)
              (rollback_range-Level id len n (suc i) index _ store' keep (
                Level-with_head laws Q offset nodes (index + i) _ level
                  (keep _ (level (index + i)).0)))
      ]

  pub delete_range-Level :
      (id len n i index : ℕ) (nodes : ℕ → LpmNode P) (store : S)
      → ((h : List P) → Q h → Q (erase_entry laws h id len))
      → Level laws Q offset nodes
      → Level laws Q offset (delete_range ops id len n i index nodes store).1
  unfolding delete_range
  delete_range-Level id len zero i index nodes store keep level = level
  delete_range-Level id len (suc n) i index nodes store keep level =
      elim (lpm_entry_delete_cases laws (head_of (nodes (index + i))) id len store) [
        | inl (absent, e) ↦ rw (e, delete_range) level
        | inr (store', present, e) ↦
            rw (e, delete_range)
              (delete_range-Level id len n (suc i) index _ store' keep (
                Level-with_head laws Q offset nodes (index + i) _ level
                  (keep _ (level (index + i)).0)))
      ]

  pub insert_range-Level :
      (id : ℕ) (x : P) (n i index : ℕ) (nodes : ℕ → LpmNode P) (st : LpmState S)
      → ((h : List P) → Q h → Descending laws h × Q (insert_entry laws x h))
      → Level laws Q offset nodes
      → Level laws Q offset (insert_range ops id (len_of x) x n i index nodes st).nodes
  unfolding insert_range
  insert_range-Level id x zero i index nodes st keep level = level
  insert_range-Level id x (suc n) i index nodes st keep level =
      let head = head_of (nodes (index + i)) in
      let kept = keep head (level (index + i)).0 in
      let run = lpm_entry_insert-eq laws head id x st.store kept.0 in
      elim (Bool-cases (mem_next st.allocs).0) [
        | inr e ↦ rw (e, insert_range) level
        | inl e ↦ elim (Bool-cases (has_entry laws head id (len_of x))) [
          | inl old ↦ rw (e, insert_range, run, old) level
          | inr new ↦
              rw (e, insert_range, run, new)
                (insert_range-Level id x n (suc i) index _ _ keep
                  (Level-with_head laws Q offset nodes (index + i) _ level kept.1))
        ]
      ]
