-- ===== src/Lpm/Effect.antt =====
-- What a successful lpm_add changes: exactly the destinations that the prefix covers meet the new
-- entry, behind the longer entries.
use ixmap.Base.{
  ℕ, zero, suc, ◌+◌, ◌-◌, ◌*◌, ◌/◌, ◌^◌, ◌≤◌, ◌<◌, ◌≡◌, refl, sym, ◌∙◌, ap, subst, some-injective,
  List, [], ◌++◌, Bool, true, false, ◌&&◌, some, arith, ◌==◌, ==_iff, false≢true, ltb,
  if◌then◌else◌, update, Bool-cases, Option-cases, inl, inr,
}
use native.Mathlib.Nat.{pow-suc}
use ixmap.Lpm.{LpmOps, LpmNode, leaf, inner, LpmTable, LpmState, mem_next, head_of, lpm_index}
use ixmap.Lpm.Add.{insert_range, open_level, lpm_add_here, lpm_add_below, lpm_add_top, lpm_add}
use ixmap.Lpm.Entries.{LpmLaws, AtMost, Descending, insert_entry}
use ixmap.Lpm.Walk.{path_below, path_entries}
use ixmap.Lpm.Order.{Fits, FitsTop, path_below-Descending, OrderedBelow, Level, IsOrdered}
use ixmap.Lpm.Preserve.{
  open_level-Level, lpm_add_below-Kept, Fits-insert_entry, FitsTop-insert_entry,
}
use ixmap.Lpm.Place.{insert_entry-append_left, insert_entry-append_right, insert_block-head}

-- Whether `dst` leads from a node of the level at `offset` to one of those that hold the prefix.
unfoldable pub meets_below : (ℕ → ℕ) → ℕ → (ℕ → ℕ) → ℕ → ℕ → Bool
meets_below prefix len dst zero offset = false
meets_below prefix len dst (suc fuel) offset =
    let deeper = meets_below prefix len dst fuel (offset + 8) in
    let range = 2 ^ (8 - (len - offset)) in
    if ltb 8 (len - offset)
    then (lpm_index dst offset 8 == lpm_index prefix offset 8) && deeper
    else lpm_index dst offset 8 / range == lpm_index prefix offset 8 / range

pub power_pos : (n : ℕ) → 0 < 2 ^ n
power_pos zero = omega arith
power_pos (suc n) = rw pow-suc (omega (arith, power_pos n))

module _ {P S : Type 0} {ops : LpmOps P S} (laws : LpmLaws ops) (prefix : ℕ → ℕ) (x : P)
    (id : ℕ) where
  open laws use {len_of}

  open_level-path_below :
      (dst : ℕ → ℕ) (offset : ℕ) (parent : LpmNode P) (st : LpmState S) (head : List P)
      → (nodes : ℕ → LpmNode P) → (open_level parent st).0 ≡ some nodes
      → path_below dst offset (inner head nodes) ≡ path_below dst offset parent
  unfolding open_level path_below
  open_level-path_below dst offset (inner h level) st head nodes e =
      subst
        (λ n.
          path_below dst (offset + 8) (n (lpm_index dst offset 8))
            ++ head_of (n (lpm_index dst offset 8))
          ≡ path_below dst offset (inner h level))
        (some-injective _ _ e) refl
  open_level-path_below dst offset (leaf h) st head nodes e =
      elim (Bool-cases (mem_next st.allocs).0) [
        | inl got ↦
            subst
              (λ n.
                path_below dst (offset + 8) (n (lpm_index dst offset 8))
                  ++ head_of (n (lpm_index dst offset 8))
                ≡ [])
              {x = λ i. leaf []} (some-injective _ _ (rw got at e)) refl
        | inr null ↦ absurd (ground arith)
      ]

  -- What is met at index `j` once there is a new child, whose list is the old one, at `index`.
  met-update :
      (dst : ℕ → ℕ) (n j index : ℕ) (nodes : ℕ → LpmNode P) (child : LpmNode P) (m : Bool)
      → n < len_of x
      → AtMost laws n (head_of (nodes index))
      → head_of child ≡ head_of (nodes index)
      → path_below dst n child ≡ (
          if m
          then insert_entry laws x (path_below dst n (nodes index))
          else path_below dst n (nodes index))
      → path_below dst n (update nodes index child j) ++ head_of (update nodes index child j) ≡ (
          if (j == index) && m
          then insert_entry laws x (path_below dst n (nodes j) ++ head_of (nodes j))
          else path_below dst n (nodes j) ++ head_of (nodes j))
  met-update dst n j index nodes child m lo short same ih = elim (Bool-cases (j == index)) [
    | inr miss ↦ rw miss
    | inl hit ↦
        rw (hit, ih, same, (==_iff j index).0 hit)
          (elim (Bool-cases m) [
            | inr no_match ↦ rw no_match
            | inl matched ↦ rw matched (sym (insert_entry-append_left laws n x _ _ lo short))
          ])
  ]

  -- What is met at index `j` once the entry is in the nodes of a block.
  met-insert_block :
      (Q : List P → Type 0) (dst : ℕ → ℕ) (n j r q : ℕ) (nodes : ℕ → LpmNode P) (st : LpmState S)
      → ((h : List P) → Q h → Descending laws h × Q (insert_entry laws x h))
      → Level laws Q n nodes
      → 0 < r
      → len_of x ≤ n
      → (insert_range ops id (len_of x) x r 0 (q * r) nodes st).done ≡ true
      → let nodes' = (insert_range ops id (len_of x) x r 0 (q * r) nodes st).nodes in
        path_below dst n (nodes' j) ++ head_of (nodes' j) ≡ (
          if j / r == q
          then insert_entry laws x (path_below dst n (nodes j) ++ head_of (nodes j))
          else path_below dst n (nodes j) ++ head_of (nodes j))
  met-insert_block Q dst n j r q nodes st keep level pos hi ran =
      let (heads, below) = insert_block-head laws Q n id x r q nodes st keep level pos ran dst j in
      let longer = path_below-Descending laws dst n (nodes j) (level j).1 in
      rw (below, heads)
        (elim (Bool-cases (j / r == q)) [
          | inl hit ↦ rw hit (sym (insert_entry-append_right laws n x _ _ hi longer.1))
          | inr miss ↦ rw miss
        ])

  lpm_add_here-path_below :
      (offset : ℕ) (head : List P) (nodes : ℕ → LpmNode P) (st : LpmState S)
      → offset < len_of x
      → len_of x ≤ offset + 8
      → Level laws (Fits laws offset) (offset + 8) nodes
      → (lpm_add_here ops prefix (len_of x) id x offset head nodes st).0 ≡ true
      → (dst : ℕ → ℕ)
      → let range = 2 ^ (8 - (len_of x - offset)) in
        path_below dst offset (lpm_add_here ops prefix (len_of x) id x offset head nodes st).1 ≡ (
          if lpm_index dst offset 8 / range == lpm_index prefix offset 8 / range
          then insert_entry laws x (path_below dst offset (inner head nodes))
          else path_below dst offset (inner head nodes))
  unfolding lpm_add_here path_below
  lpm_add_here-path_below offset head nodes st lo hi level done dst =
      let range = 2 ^ (8 - (len_of x - offset)) in
      let ran : (insert_range ops id (len_of x) x range 0
            (lpm_index prefix offset 8 / range * range) nodes st).done
          ≡ true =
        ground arith in
      rw ran (
        met-insert_block (Fits laws offset) dst (offset + 8) (lpm_index dst offset 8) range
          (lpm_index prefix offset 8 / range) nodes st
          (λ h f. Fits-insert_entry laws prefix offset x h lo hi f) level
          (power_pos (8 - (len_of x - offset))) hi ran)

  -- A successful `_lpm_add` leaves what a destination meets below the node as it was, but for the
  -- new entry where the destination meets the prefix.
  lpm_add_below-path_below :
      (fuel offset : ℕ) (parent : LpmNode P) (st : LpmState S)
      → offset < len_of x
      → len_of x ≤ offset + fuel
      → OrderedBelow laws offset parent
      → (r : Bool × LpmNode P × LpmState S)
      → lpm_add_below ops prefix (len_of x) id x fuel offset parent st ≡ some r
      → r.0 ≡ true
      → (dst : ℕ → ℕ)
      → path_below dst offset r.1 ≡ (
          if meets_below prefix (len_of x) dst fuel offset
          then insert_entry laws x (path_below dst offset parent)
          else path_below dst offset parent)
  unfolding lpm_add_below meets_below path_below
  lpm_add_below-path_below zero offset parent st lo enough o r run done dst = absurd (omega arith)
  lpm_add_below-path_below (suc fuel) offset parent st lo enough o r run done dst =
      elim (Option-cases (open_level parent st).0) [
        | inl e ↦
            let failed = some-injective _ _ (rw (e, lpm_add_below) at run) in
            absurd (false≢true (ap (λ (p : Bool × LpmNode P × LpmState S). p.0) failed ∙ done))
        | inr (nodes, e) ↦
            let level = open_level-Level laws prefix x id offset parent st o nodes e in
            let opened = open_level-path_below dst offset parent st (head_of parent) nodes e in
            elim (Bool-cases (ltb 8 (len_of x - offset))) [
              | inr here ↦
                  let same = some-injective _ _ (rw (e, lpm_add_below, here) at run) in
                  let body =
                    lpm_add_here-path_below offset (head_of parent) nodes (open_level parent st).1
                      lo (ground arith) level
                      (ap (λ (p : Bool × LpmNode P × LpmState S). p.0) same ∙ done) dst in
                  rw (here, ← same) (rw opened at body)
              | inl deep ↦
                  let index = lpm_index prefix offset 8 in
                  let (r', run', (below, kept)) =
                    lpm_add_below-Kept laws prefix x id fuel (offset + 8) (nodes index)
                      (open_level parent st).1 (ground arith) (ground arith) (level index).1 in
                  let same = some-injective _ _ (rw (e, lpm_add_below, deep, run') at run) in
                  let d : r'.0 ≡ true =
                    ap (λ (p : Bool × LpmNode P × LpmState S). p.0) same ∙ done in
                  let ih =
                    lpm_add_below-path_below fuel (offset + 8) (nodes index)
                      (open_level parent st).1 (ground arith) (ground arith) (level index).1 r' run'
                      d dst in
                  rw (deep, ← same, d, ← opened)
                    (met-update dst (offset + 8) (lpm_index dst offset 8) index nodes r'.1
                      (meets_below prefix (len_of x) dst fuel (offset + 8)) (ground arith)
                      (level index).0.2 kept ih)
            ]
      ]

-- Whether `dst` leads to one of the nodes that hold the prefix.
unfoldable pub meets : (ℕ → ℕ) → ℕ → (ℕ → ℕ) → Bool
meets prefix len dst =
    let range = 2 ^ (16 - len) in
    if ltb 16 len
    then (lpm_index dst 0 16 == lpm_index prefix 0 16) && meets_below prefix len dst len 16
    else lpm_index dst 0 16 / range == lpm_index prefix 0 16 / range

module _ {P S : Type 0} {ops : LpmOps P S} (laws : LpmLaws ops) (prefix : ℕ → ℕ) (x : P)
    (id : ℕ) where
  open laws use {len_of}

  lpm_add_top-path_entries :
      (table : LpmTable P) (st : LpmState S)
      → len_of x ≤ 16
      → IsOrdered laws table
      → (lpm_add_top ops prefix (len_of x) id x table st).0 ≡ true
      → (dst : ℕ → ℕ)
      → let range = 2 ^ (16 - len_of x) in
        path_entries dst (lpm_add_top ops prefix (len_of x) id x table st).1 ≡ (
          if lpm_index dst 0 16 / range == lpm_index prefix 0 16 / range
          then insert_entry laws x (path_entries dst table)
          else path_entries dst table)
  unfolding lpm_add_top path_entries
  lpm_add_top-path_entries table st hi o done dst =
      let range = 2 ^ (16 - len_of x) in
      let ran : (insert_range ops id (len_of x) x range 0 (lpm_index prefix 0 16 / range * range)
            table.node st).done
          ≡ true =
        ground arith in
      rw ran (
        met-insert_block laws prefix x id (FitsTop laws) dst 16 (lpm_index dst 0 16) range
          (lpm_index prefix 0 16 / range) table.node st
          (λ h f. FitsTop-insert_entry laws prefix x id h hi f) o (power_pos (16 - len_of x)) hi
          ran)

  -- A successful lpm_add on an ordered table: a destination that the prefix covers meets the
  -- entries that it met before and the new one, which stands behind the longer entries and before
  -- the others; any other destination meets what it met before.
  pub lpm_add-path_entries :
      (table : LpmTable P) (st : LpmState S) (r : Bool × LpmTable P × LpmState S)
      → IsOrdered laws table
      → lpm_add ops prefix (len_of x) id x table st ≡ some r
      → r.0 ≡ true
      → (dst : ℕ → ℕ)
      → path_entries dst r.1 ≡ (
          if meets prefix (len_of x) dst
          then insert_entry laws x (path_entries dst table)
          else path_entries dst table)
  unfolding lpm_add meets path_entries
  lpm_add-path_entries table st r o run done dst = elim (Bool-cases (ltb 16 (len_of x))) [
    | inr top ↦
        let same = some-injective _ _ (rw (top, lpm_add) at run) in
        rw (top, ← same)
          (lpm_add_top-path_entries table st (ground arith) o
            (ap (λ (p : Bool × LpmTable P × LpmState S). p.0) same ∙ done) dst)
    | inl deep ↦
        let index = lpm_index prefix 0 16 in
        let (r', run', (below, kept)) =
          lpm_add_below-Kept laws prefix x id (len_of x) 16 (table.node index) st (ground arith)
            (omega arith) (o index).1 in
        let same = some-injective _ _ (rw (deep, lpm_add, run') at run) in
        let d : r'.0 ≡ true = ap (λ (p : Bool × LpmTable P × LpmState S). p.0) same ∙ done in
        let ih =
          lpm_add_below-path_below laws prefix x id (len_of x) 16 (table.node index) st
            (ground arith) (omega arith) (o index).1 r' run' d dst in
        rw (deep, ← same)
          (met-update laws prefix x id dst 16 (lpm_index dst 0 16) index table.node r'.1
            (meets_below prefix (len_of x) dst (len_of x) 16) (ground arith) (o index).0.1 kept ih)
  ]
