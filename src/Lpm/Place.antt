-- ===== src/Lpm/Place.antt =====
-- The nodes in which the insertion loop puts an entry, and the entry's place among those met.
use ixmap.Base.{
  ℕ, zero, suc, ◌+◌, ◌*◌, ◌/◌, ◌≤◌, ◌<◌, ◌≡◌, refl, ◌∙◌, List, [], ◌∷◌, ◌++◌, true, ◌&&◌, arith,
  ◌==◌, ltb, leb, if◌then◌else◌, update, All, Bool-cases, inl, inr,
}
use native.Mathlib.Nat.{div-add-mod, mod-lt, add-zero}
use ixmap.Lpm.{LpmOps, LpmNode, LpmState, mem_next, head_of, with_head}
use ixmap.Lpm.Add.{insert_range}
use ixmap.Lpm.Entries.{LpmLaws, AtMost, Descending, has_entry, insert_entry, lpm_entry_insert-eq}
use ixmap.Lpm.Walk.{path_below, path_below-with_head, head_of-with_head}
use ixmap.Lpm.Order.{Level}
use ixmap.Lpm.Loops.{Level-with_head}

-- `j` lies in the block of `r` indices that begins at `q * r` exactly if `j / r` is `q`.
below_block : (q d r : ℕ) → d < q → d * r + r ≤ q * r
below_block q d r h = grind arith

pub in_block : (j q r : ℕ) → 0 < r → (leb (q * r) j && ltb j (q * r + r)) ≡ (j / r == q)
in_block j q r h =
    ground (arith, div-add-mod j r, mod-lt j h, below_block q (j / r) r, below_block (j / r) q r)

module _ {P S : Type 0} {ops : LpmOps P S} (laws : LpmLaws ops) where
  open laws use {len_of}

  -- Behind longer entries, and before shorter ones.
  pub insert_entry-append_left :
      (n : ℕ) (x : P) (xs ys : List P)
      → n < len_of x
      → AtMost laws n ys
      → insert_entry laws x (xs ++ ys) ≡ insert_entry laws x xs ++ ys
  unfolding insert_entry
  insert_entry-append_left n x [] [] h b = refl
  insert_entry-append_left n x [] (y ∷ ys) h b = ground arith
  insert_entry-append_left n x (e ∷ xs) ys h b =
      ground (arith, insert_entry-append_left n x xs ys h b)

  pub insert_entry-append_right :
      (n : ℕ) (x : P) (xs ys : List P)
      → len_of x ≤ n
      → All (λ e. n < len_of e) xs
      → insert_entry laws x (xs ++ ys) ≡ xs ++ insert_entry laws x ys
  unfolding insert_entry
  insert_entry-append_right n x [] ys h a = refl
  insert_entry-append_right n x (e ∷ xs) ys h a =
      ground (arith, insert_entry-append_right n x xs ys h a.1)

  module _ (Q : List P → Type 0) (offset : ℕ) (id : ℕ) (x : P) where
    -- A loop that ran to its end has put the entry into each node of its range.
    insert_range-head :
        (n i index : ℕ) (nodes : ℕ → LpmNode P) (st : LpmState S)
        → ((h : List P) → Q h → Descending laws h × Q (insert_entry laws x h))
        → Level laws Q offset nodes
        → (insert_range ops id (len_of x) x n i index nodes st).done ≡ true
        → (dst : ℕ → ℕ) (j : ℕ)
        → (head_of ((insert_range ops id (len_of x) x n i index nodes st).nodes j) ≡ (
            if leb (index + i) j && ltb j (index + i + n)
            then insert_entry laws x (head_of (nodes j))
            else head_of (nodes j)))
          × (path_below dst offset ((insert_range ops id (len_of x) x n i index nodes st).nodes j)
              ≡ path_below dst offset (nodes j))
    unfolding insert_range
    insert_range-head zero i index nodes st keep level done dst j = (ground arith, refl)
    insert_range-head (suc n) i index nodes st keep level done dst j =
        let head = head_of (nodes (index + i)) in
        let kept = keep head (level (index + i)).0 in
        let run = lpm_entry_insert-eq laws head id x st.store kept.0 in
        elim (Bool-cases (mem_next st.allocs).0) [
          | inr e ↦ absurd (ground arith)
          | inl e ↦ elim (Bool-cases (has_entry laws head id (len_of x))) [
            | inl old ↦ absurd (ground arith)
            | inr new ↦
                let nodes' =
                  update nodes (index + i)
                    (with_head (nodes (index + i)) (insert_entry laws x head)) in
                let st' : LpmState S = record {
                  store = ops.entry_pull x st.store;
                  allocs = (mem_next st.allocs).1;
                } in
                let step : insert_range ops id (len_of x) x (suc n) i index nodes st
                    ≡ insert_range ops id (len_of x) x n (suc i) index nodes' st' =
                  rw (e, insert_range, run, new) refl in
                let (heads, below) =
                  insert_range-head n (suc i) index nodes' st' keep
                    (Level-with_head laws Q offset nodes (index + i) _ level kept.1)
                    (rw step at done) dst j in
                rw step (
                  heads
                      ∙ ground
                          (arith, head_of-with_head (nodes (index + i)) (insert_entry laws x head)),
                  below
                      ∙ ground (
                        arith,
                        path_below-with_head dst offset (nodes (index + i))
                            (insert_entry laws x head),
                      ),
                )
          ]
        ]

    -- The same for the block of `r` nodes that begins at `q * r`.
    pub insert_block-head :
        (r q : ℕ) (nodes : ℕ → LpmNode P) (st : LpmState S)
        → ((h : List P) → Q h → Descending laws h × Q (insert_entry laws x h))
        → Level laws Q offset nodes
        → 0 < r
        → (insert_range ops id (len_of x) x r 0 (q * r) nodes st).done ≡ true
        → (dst : ℕ → ℕ) (j : ℕ)
        → (head_of ((insert_range ops id (len_of x) x r 0 (q * r) nodes st).nodes j)
            ≡ (if j / r == q then insert_entry laws x (head_of (nodes j)) else head_of (nodes j)))
          × (path_below dst offset ((insert_range ops id (len_of x) x r 0 (q * r) nodes st).nodes j)
              ≡ path_below dst offset (nodes j))
    insert_block-head r q nodes st keep level pos done dst j =
        rw (← in_block j q r pos)
          (rw add-zero at (insert_range-head r 0 (q * r) nodes st keep level done dst j))
