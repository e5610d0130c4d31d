-- ===== src/Lpm/Remove.antt =====
-- What a successful lpm_delete changes: exactly the destinations that the prefix covers no longer
-- meet the entry.
use ixmap.Base.{
  ℕ, zero, suc, ◌+◌, ◌-◌, ◌*◌, ◌/◌, ◌^◌, ◌≤◌, ◌<◌, ◌≡◌, refl, sym, ◌∙◌, List, [], ◌∷◌, ◌++◌, Bool,
  true, false, false≢true, ◌&&◌, arith, ◌==◌, ==_iff, ltb, leb, if◌then◌else◌, update, All,
  Bool-cases, inl, inr, not, ◌||◌,
}
use native.Mathlib.Nat.{add-zero}
use ixmap.Lpm.{
  LpmOps, LpmNode, leaf, inner, LpmTable, head_of, has_next, is_empty, with_head, any_used,
  lpm_index, prune,
}
use ixmap.Lpm.Delete.{delete_range, lpm_delete_below, lpm_delete}
use ixmap.Lpm.Entries.{LpmLaws, AtMost, erase_entry}
use ixmap.Lpm.Walk.{path_below, path_entries, path_below-with_head, head_of-with_head}
use ixmap.Lpm.Order.{Fits, FitsTop, path_below-Descending, OrderedBelow, Level, IsOrdered}
use ixmap.Lpm.Loops.{lpm_entry_delete_cases}
use ixmap.Lpm.Preserve.{lpm_delete_below-Kept}
use ixmap.Lpm.Place.{in_block}
use ixmap.Lpm.Effect.{meets, meets_below, power_pos}

module _ {P S : Type 0} {ops : LpmOps P S} (laws : LpmLaws ops) (id len : ℕ) where
  open laws use {len_of}

  erase_entry_absent :
      (n : ℕ) (ys : List P) → n < len → AtMost laws n ys → erase_entry laws ys id len ≡ ys
  unfolding erase_entry
  erase_entry_absent n [] h b = refl
  erase_entry_absent n (y ∷ ys) h b = ground (arith, erase_entry_absent n ys h b.1)

  erase_entry-append_left :
      (n : ℕ) (xs ys : List P)
      → n < len
      → AtMost laws n ys
      → erase_entry laws (xs ++ ys) id len ≡ erase_entry laws xs id len ++ ys
  unfolding erase_entry
  erase_entry-append_left n [] ys h b = erase_entry_absent n ys h b
  erase_entry-append_left n (e ∷ xs) ys h b = ground (arith, erase_entry-append_left n xs ys h b)

  erase_entry-append_right :
      (n : ℕ) (xs ys : List P)
      → len ≤ n
      → All (λ e. n < len_of e) xs
      → erase_entry laws (xs ++ ys) id len ≡ xs ++ erase_entry laws ys id len
  unfolding erase_entry
  erase_entry-append_right n [] ys h a = refl
  erase_entry-append_right n (e ∷ xs) ys h a =
      ground (arith, erase_entry-append_right n xs ys h a.1)

  -- A loop that ran to its end has taken the entry out of each node of its range.
  delete_range-head :
      (offset n i index : ℕ) (nodes : ℕ → LpmNode P) (store : S)
      → (delete_range ops id len n i index nodes store).0 ≡ true
      → (dst : ℕ → ℕ) (j : ℕ)
      → (head_of ((delete_range ops id len n i index nodes store).1 j) ≡ (
          if leb (index + i) j && ltb j (index + i + n)
          then erase_entry laws (head_of (nodes j)) id len
          else head_of (nodes j)))
        × (path_below dst offset ((delete_range ops id len n i index nodes store).1 j)
            ≡ path_below dst offset (nodes j))
  unfolding delete_range
  delete_range-head offset zero i index nodes store done dst j = (ground arith, refl)
  delete_range-head offset (suc n) i index nodes store done dst j =
      elim (lpm_entry_delete_cases laws (head_of (nodes (index + i))) id len store) [
        | inl (absent, e) ↦ absurd (false≢true (rw (e, delete_range) at done))
        | inr (store', present, e) ↦
            let head' = erase_entry laws (head_of (nodes (index + i))) id len in
            let nodes' = update nodes (index + i) (with_head (nodes (index + i)) head') in
            let step : delete_range ops id len (suc n) i index nodes store
                ≡ delete_range ops id len n (suc i) index nodes' store' =
              rw (e, delete_range) refl in
            let (heads, below) =
              delete_range-head offset n (suc i) index nodes' store' (rw step at done) dst j in
            rw step (
              heads ∙ ground (arith, head_of-with_head (nodes (index + i)) head'),
              below ∙ ground (arith, path_below-with_head dst offset (nodes (index + i)) head'),
            )
      ]

  -- What is met at index `j` once the entry is out of the nodes of a block.
  met-delete_block :
      (Q : List P → Type 0) (dst : ℕ → ℕ) (n j r q : ℕ) (nodes : ℕ → LpmNode P) (store : S)
      → Level laws Q n nodes
      → 0 < r
      → len ≤ n
      → (delete_range ops id len r 0 (q * r) nodes store).0 ≡ true
      → let nodes' = (delete_range ops id len r 0 (q * r) nodes store).1 in
        path_below dst n (nodes' j) ++ head_of (nodes' j) ≡ (
          if j / r == q
          then erase_entry laws (path_below dst n (nodes j) ++ head_of (nodes j)) id len
          else path_below dst n (nodes j) ++ head_of (nodes j))
  met-delete_block Q dst n j r q nodes store level pos hi ran =
      let (heads, below) = rw add-zero at (delete_range-head n r 0 (q * r) nodes store ran dst j) in
      let longer = path_below-Descending laws dst n (nodes j) (level j).1 in
      rw (below, heads, in_block j q r pos)
        (elim (Bool-cases (j / r == q)) [
          | inl hit ↦ rw hit (sym (erase_entry-append_right n _ _ hi longer.1))
          | inr miss ↦ rw miss
        ])

  -- What is met at index `j` once there is a new child, whose list is the old one, at `index`.
  met-update_erased :
      (dst : ℕ → ℕ) (n j index : ℕ) (nodes : ℕ → LpmNode P) (child : LpmNode P) (m : Bool)
      → n < len
      → AtMost laws n (head_of (nodes index))
      → head_of child ≡ head_of (nodes index)
      → path_below dst n child ≡ (
          if m
          then erase_entry laws (path_below dst n (nodes index)) id len
          else path_below dst n (nodes index))
      → path_below dst n (update nodes index child j) ++ head_of (update nodes index child j) ≡ (
          if (j == index) && m
          then erase_entry laws (path_below dst n (nodes j) ++ head_of (nodes j)) id len
          else path_below dst n (nodes j) ++ head_of (nodes j))
  met-update_erased dst n j index nodes child m lo short same ih = elim (Bool-cases (j == index)) [
    | inr miss ↦ rw miss
    | inl hit ↦
        rw (hit, ih, same, (==_iff j index).0 hit)
          (elim (Bool-cases m) [
            | inr no_match ↦ rw no_match
            | inl matched ↦ rw matched (sym (erase_entry-append_left n _ _ lo short))
          ])
  ]

index-lt : (dst : ℕ → ℕ) (offset : ℕ) → lpm_index dst offset 8 < 256
unfolding lpm_index
index-lt dst offset = omega arith

module _ {P : Type 0} where
  unused_node :
      (dst : ℕ → ℕ) (offset : ℕ) (node : LpmNode P)
      → (has_next node || not (is_empty (head_of node))) ≡ false
      → path_below dst offset node ++ head_of node ≡ []
  unfolding path_below
  unused_node dst offset (leaf []) h = refl
  unused_node dst offset (leaf (e ∷ head)) h = absurd (false≢true (sym h))
  unused_node dst offset (inner head nodes) h = absurd (false≢true (sym h))

  -- A level of which no node is used holds nothing.
  any_used_none :
      (n i : ℕ) (nodes : ℕ → LpmNode P)
      → any_used n i nodes ≡ false
      → (dst : ℕ → ℕ) (offset j : ℕ) → i ≤ j
      → j < i + n
      → path_below dst offset (nodes j) ++ head_of (nodes j) ≡ []
  unfolding any_used
  any_used_none zero i nodes unused dst offset j lo hi = absurd (omega arith)
  any_used_none (suc n) i nodes unused dst offset j lo hi = elim (Bool-cases (j == i)) [
    | inl e ↦ rw ((==_iff j i).0 e) (unused_node dst offset (nodes i) (ground arith))
    | inr e ↦
        any_used_none n (suc i) nodes (ground arith) dst offset j (ground arith) (ground arith)
  ]

  -- Freeing a level that is not used changes nothing that a destination meets.
  prune-path_below :
      (dst : ℕ → ℕ) (offset : ℕ) (head : List P) (nodes : ℕ → LpmNode P)
      → path_below dst offset (prune head nodes) ≡ path_below dst offset (inner head nodes)
  unfolding prune path_below
  prune-path_below dst offset head nodes = elim (Bool-cases (any_used 256 0 nodes)) [
    | inl e ↦ rw e
    | inr e ↦ rw e (
        sym (
          any_used_none 256 0 nodes e dst (offset + 8) (lpm_index dst offset 8) (omega arith)
            (index-lt dst offset)))
  ]

module _ {P S : Type 0} {ops : LpmOps P S} (laws : LpmLaws ops) (prefix : ℕ → ℕ) (id len : ℕ) where
  open laws use {len_of}

  lpm_delete_below-path_below :
      (fuel offset : ℕ) (parent : LpmNode P) (store : S)
      → offset < len
      → len ≤ offset + fuel
      → OrderedBelow laws offset parent
      → (lpm_delete_below ops prefix len id offset parent store).0 ≡ true
      → (dst : ℕ → ℕ)
      → path_below dst offset (lpm_delete_below ops prefix len id offset parent store).1 ≡ (
          if meets_below prefix len dst fuel offset
          then erase_entry laws (path_below dst offset parent) id len
          else path_below dst offset parent)
  unfolding lpm_delete_below meets_below path_below
  lpm_delete_below-path_below zero offset parent store lo enough o done dst = absurd (omega arith)
  lpm_delete_below-path_below (suc fuel) offset (leaf head) store lo enough o done dst =
      absurd (false≢true done)
  lpm_delete_below-path_below (suc fuel) offset (inner head nodes) store lo enough o done dst =
      let index = lpm_index prefix offset 8 in
      let range = 2 ^ (8 - (len - offset)) in
      elim (Bool-cases (ltb 8 (len - offset))) [
        | inr here ↦
            let ran : (delete_range ops id len range 0 (index / range * range) nodes store).0
                ≡ true =
              rw here at done in
            rw (here, ran)
              (prune-path_below dst offset head _
                ∙ met-delete_block laws id len (Fits laws offset) dst (offset + 8)
                    (lpm_index dst offset 8) range (index / range) nodes store o
                    (power_pos (8 - (len - offset))) (ground arith) ran)
        | inl deep ↦
            let ran : (lpm_delete_below ops prefix len id (offset + 8) (nodes index) store).0
                ≡ true =
              rw deep at done in
            let ih =
              lpm_delete_below-path_below fuel (offset + 8) (nodes index) store (ground arith)
                (ground arith) (o index).1 ran dst in
            let kept =
              lpm_delete_below-Kept laws prefix len id (offset + 8) (nodes index) store
                (o index).1 in
            rw (deep, ran)
              (prune-path_below dst offset head _
                ∙ met-update_erased laws id len dst (offset + 8) (lpm_index dst offset 8) index
                    nodes _ (meets_below prefix len dst fuel (offset + 8)) (ground arith)
                    (o index).0.2 kept.1 ih)
      ]

  -- A successful lpm_delete on an ordered table: a destination that the prefix covers meets the
  -- entries that it met before but for the first one with the id and the length; any other
  -- destination meets what it met before.
  pub lpm_delete-path_entries :
      (table : LpmTable P) (store : S)
      → IsOrdered laws table
      → (lpm_delete ops prefix len id table store).0 ≡ true
      → (dst : ℕ → ℕ)
      → path_entries dst (lpm_delete ops prefix len id table store).1 ≡ (
          if meets prefix len dst
          then erase_entry laws (path_entries dst table) id len
          else path_entries dst table)
  unfolding lpm_delete meets path_entries
  lpm_delete-path_entries table store o done dst =
      let index = lpm_index prefix 0 16 in
      let range = 2 ^ (16 - len) in
      elim (Bool-cases (ltb 16 len)) [
        | inr top ↦ rw top (
            met-delete_block laws id len (FitsTop laws) dst 16 (lpm_index dst 0 16) range
              (index / range) table.node store o (power_pos (16 - len)) (ground arith)
              (rw top at done))
        | inl deep ↦
            let ran : (lpm_delete_below ops prefix len id 16 (table.node index) store).0 ≡ true =
              rw deep at done in
            let ih =
              lpm_delete_below-path_below len 16 (table.node index) store (ground arith)
                (omega arith) (o index).1 ran dst in
            let kept =
              lpm_delete_below-Kept laws prefix len id 16 (table.node index) store (o index).1 in
            rw deep (
              met-update_erased laws id len dst 16 (lpm_index dst 0 16) index table.node _
                (meets_below prefix len dst len 16) (ground arith) (o index).0.1 kept.1 ih)
      ]
