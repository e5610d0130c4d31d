-- ===== src/Lpm/Rollback.antt =====
-- The failure of lpm_add in the first level: the loop at `err_lpm_add` undoes what was inserted.
use ixmap.Base.{
  ℕ, zero, suc, ◌+◌, ◌-◌, ◌^◌, ◌≤◌, ◌≡◌, refl, sym, ap, ◌∙◌, List, [], ◌∷◌, Bool, true, false,
  false≢true, some, some-injective, arith, ◌==◌, ltb, leb, ◌&&◌, if◌then◌else◌, update, ==_iff,
  Bool-cases, inl, inr,
}
use ixmap.Lpm.{
  LpmOps, LpmNode, leaf, inner, LpmTable, LpmState, mem_next, head_of, with_head, clear_low,
  lpm_index,
}
use ixmap.Lpm.Add.{insert_range, rollback_range, lpm_add_top, lpm_add}
use ixmap.Lpm.Entries.{
  LpmLaws, Descending, has_entry, insert_entry, lpm_entry_insert-eq, lpm_entry_delete-eq,
  erase_entry-insert_entry,
}
use ixmap.Lpm.Walk.{head_of-with_head}
use ixmap.Lpm.Order.{IsOrdered}

with_head-with_head :
    {P : Type 0} (node : LpmNode P) (h : List P)
    → with_head (with_head node h) (head_of node) ≡ node
with_head-with_head (leaf head) h = refl
with_head-with_head (inner head nodes) h = refl

module _ {P S : Type 0} {ops : LpmOps P S} (laws : LpmLaws ops) (x : P) where
  open laws use {id_of, len_of}

  has_entry-insert_entry :
      (head : List P) → has_entry laws (insert_entry laws x head) (id_of x) (len_of x) ≡ true
  unfolding has_entry insert_entry
  has_entry-insert_entry [] = ground arith
  has_entry-insert_entry (e ∷ head) = ground (arith, has_entry-insert_entry head)

  -- Whether the place is one of those from `index + i` up to `index + c`.
  abbrev between : ℕ → ℕ → ℕ → ℕ → Bool
  between index i c j = leb (index + i) j && ltb j (index + c)

  -- The nodes with `x` in the lists of these places, where it was not before.
  abbrev Partly : ℕ → ℕ → ℕ → (ℕ → LpmNode P) → (ℕ → LpmNode P) → Type 0
  Partly index i c nodes₀ nodes =
      (j : ℕ)
      → (nodes j ≡ (
          if between index i c j
          then with_head (nodes₀ j) (insert_entry laws x (head_of (nodes₀ j)))
          else nodes₀ j))
        × (between index i c j ≡ true
            → has_entry laws (head_of (nodes₀ j)) (id_of x) (len_of x) ≡ false)

  -- One more place filled.
  Partly-suc :
      (i index j : ℕ) (nodes₀ nodes : ℕ → LpmNode P)
      → Partly index 0 i nodes₀ nodes
      → has_entry laws (head_of (nodes₀ (index + i))) (id_of x) (len_of x) ≡ false
      → nodes (index + i) ≡ nodes₀ (index + i)
      → let filled =
          with_head (nodes (index + i)) (insert_entry laws x (head_of (nodes₀ (index + i)))) in
        (update nodes (index + i) filled j ≡ (
          if between index 0 (suc i) j
          then with_head (nodes₀ j) (insert_entry laws x (head_of (nodes₀ j)))
          else nodes₀ j))
        × (between index 0 (suc i) j ≡ true
            → has_entry laws (head_of (nodes₀ j)) (id_of x) (len_of x) ≡ false)
  Partly-suc i index j nodes₀ nodes p new here = elim (Bool-cases (j == index + i)) [
    | inl hit ↦
        let e : j ≡ index + i = (==_iff _ _).0 hit in
        let filled : between index 0 (suc i) j ≡ true = ground arith in
        (
          rw (hit, filled, here)
              (ap (λ k. with_head (nodes₀ k) (insert_entry laws x (head_of (nodes₀ k)))) (sym e)),
          λ h. rw e new,
        )
    | inr miss ↦
        let same : between index 0 (suc i) j ≡ between index 0 i j = ground arith in
        rw (miss, same) (p j)
  ]

  insert_range-Partly :
      (n i index : ℕ) (nodes₀ nodes : ℕ → LpmNode P) (st : LpmState S)
      → ((j : ℕ) → Descending laws (head_of (nodes₀ j)))
      → Partly index 0 i nodes₀ nodes
      → (let r = insert_range ops (id_of x) (len_of x) x n i index nodes st in
          Partly index 0 r.count nodes₀ r.nodes)
  unfolding insert_range
  insert_range-Partly zero i index nodes₀ nodes st d p = p
  insert_range-Partly (suc n) i index nodes₀ nodes st d p =
      let node = nodes₀ (index + i) in
      let outside : between index 0 i (index + i) ≡ false = ground arith in
      let here : nodes (index + i) ≡ node = (p (index + i)).0 ∙ rw outside refl in
      let inserted = lpm_entry_insert-eq laws (head_of node) (id_of x) x st.store (d (index + i)) in
      elim (Bool-cases (mem_next st.allocs).0) [
        | inr no_memory ↦ rw (insert_range, no_memory) p
        | inl memory ↦ elim (Bool-cases (has_entry laws (head_of node) (id_of x) (len_of x))) [
          | inl there ↦ rw (insert_range, memory, here, inserted, there) p
          | inr new ↦
              rw (insert_range, memory, here, inserted, new)
                (insert_range-Partly n (suc i) index nodes₀ _ _ d
                  (λ j. Partly-suc i index j nodes₀ nodes p new here))
        ]
      ]

  -- One place emptied again.
  Partly-restored :
      (i index c j : ℕ) (nodes₀ nodes : ℕ → LpmNode P)
      → Partly index i c nodes₀ nodes
      → (update nodes (index + i) (nodes₀ (index + i)) j ≡ (
          if between index (suc i) c j
          then with_head (nodes₀ j) (insert_entry laws x (head_of (nodes₀ j)))
          else nodes₀ j))
        × (between index (suc i) c j ≡ true
            → has_entry laws (head_of (nodes₀ j)) (id_of x) (len_of x) ≡ false)
  Partly-restored i index c j nodes₀ nodes p = elim (Bool-cases (j == index + i)) [
    | inl hit ↦
        let e : j ≡ index + i = (==_iff _ _).0 hit in
        let out : between index (suc i) c j ≡ false = ground arith in
        (rw (hit, out) (ap nodes₀ (sym e)), λ h. absurd (ground arith))
    | inr miss ↦
        let same : between index (suc i) c j ≡ between index i c j = ground arith in
        rw (miss, same) (p j)
  ]

  rollback_range-eq :
      (n i index c : ℕ) (nodes₀ nodes : ℕ → LpmNode P) (store : S)
      → i + n ≡ c
      → Partly index i c nodes₀ nodes
      → (j : ℕ) → (rollback_range ops (id_of x) (len_of x) n i index nodes store).0 j ≡ nodes₀ j
  unfolding rollback_range
  rollback_range-eq zero i index c nodes₀ nodes store e p j =
      let out : between index i c j ≡ false = ground arith in (p j).0 ∙ rw out refl
  rollback_range-eq (suc n) i index c nodes₀ nodes store e p j =
      let old = nodes₀ (index + i) in
      let filled : between index i c (index + i) ≡ true = ground arith in
      let new = (p (index + i)).1 filled in
      let here : nodes (index + i) ≡ with_head old (insert_entry laws x (head_of old)) =
        (p (index + i)).0 ∙ rw filled refl in
      let (store', run) =
        (lpm_entry_delete-eq laws (insert_entry laws x (head_of old)) (id_of x) (len_of x) store).1
          (has_entry-insert_entry (head_of old)) in
      let back = erase_entry-insert_entry laws x (head_of old) new in
      rw
        (
          rollback_range,
          here,
          head_of-with_head old (insert_entry laws x (head_of old)),
          run,
          back,
          here,
          with_head-with_head old (insert_entry laws x (head_of old)),
        )
        (rollback_range-eq n (suc i) index c nodes₀ _ store' (omega arith)
          (λ k. Partly-restored i index c k nodes₀ nodes p) j)

  -- lpm_add of a prefix of at most 16 bits that fails on an ordered table leaves every node as it
  -- was, whatever entries it had inserted before.
  pub lpm_add_failed :
      (prefix : ℕ → ℕ) (table : LpmTable P) (st : LpmState S) (r : Bool × LpmTable P × LpmState S)
      → len_of x ≤ 16
      → IsOrdered laws table
      → lpm_add ops prefix (len_of x) (id_of x) x table st ≡ some r
      → r.0 ≡ false
      → (j : ℕ) → r.1.node j ≡ table.node j
  unfolding lpm_add lpm_add_top
  lpm_add_failed prefix table st r short o run failed j =
      let range = 2 ^ (16 - len_of x) in
      let index = clear_low (lpm_index prefix 0 16) range in
      let loop = insert_range ops (id_of x) (len_of x) x range 0 index table.node st in
      let partly =
        insert_range-Partly range 0 index table.node table.node st (λ k. (o k).0.0)
          (λ k.
            let out : between index 0 0 k ≡ false = ground arith in
            (rw out refl, λ h. absurd (ground arith))) in
      let top : ltb 16 (len_of x) ≡ false = ground arith in
      let same = some-injective _ _ (rw (lpm_add, top) at run) in
      elim (Bool-cases loop.done) [
        | inl finished ↦
            let done : (lpm_add_top ops prefix (len_of x) (id_of x) x table st).0 ≡ true =
              rw (lpm_add_top, finished) refl in
            absurd (
              false≢true
                (sym (sym done ∙ ap (λ (p : Bool × LpmTable P × LpmState S). p.0) same ∙ failed)))
        | inr stopped ↦
            rw (← same, lpm_add_top, stopped)
              (rollback_range-eq loop.count 0 index loop.count table.node loop.nodes
                loop.state.store (omega arith) partly j)
      ]
