-- ===== src/Memory/Search.antt =====
-- `_ixmap_mem_alloc` of lib/memory.c on a tree in order, with memory for the nodes.
use ixmap.Base.{
  ℕ, zero, suc, ◌+◌, ◌/◌, ◌^◌, ◌≤◌, ◌<◌, ◌≡◌, refl, sym, ap, ap₂, subst, ◌∙◌, List, [], ◌∷◌, ◌++◌,
  Bool, true, false, not, ◌||◌, none, some, arith, leb, ltb, Bool-cases, inl, inr,
}
use native.Mathlib.Nat.{pow-suc}
use ixmap.Memory.{Mnode, null, mnode, is_allocated, ixmap_mnode_alloc, split, mem_alloc, mem_free}
use ixmap.Memory.Blocks.{blocks, Covers, room, room-small}
use ixmap.Memory.Alloc.{Ample, Returns, merged, mem_alloc-null, Found-left, Found-right}

Ample-mono : (n m : ℕ) (allocs : List Bool) → n ≤ m → Ample m allocs → Ample n allocs
Ample-mono zero m allocs h a = tt
Ample-mono (suc n) zero allocs h a = absurd (omega arith)
Ample-mono (suc n) (suc m) [] h a = absurd a
Ample-mono (suc n) (suc m) (b ∷ allocs) h a = (a.0, Ample-mono n m allocs (omega arith) a.1)

Ample-two :
    (n : ℕ) (allocs : List Bool)
    → Ample (suc (suc n)) allocs
    → (rest : List Bool) × (allocs ≡ true ∷ true ∷ rest) × Ample n rest
Ample-two n [] a = absurd a
Ample-two n (b ∷ []) a = absurd a.1
Ample-two n (b ∷ d ∷ rest) (e, (f, a)) = (rest, ap₂ (λ x y. x ∷ y ∷ rest) e f, a)

fuel_left : (fuel size : ℕ) → 1 ≤ size → size < 2 ^ fuel → 0 < fuel
fuel_left zero size h k = absurd (omega arith)
fuel_left (suc fuel) size h k = omega arith

half_fuel : (fuel size : ℕ) → size < 2 ^ suc fuel → size / 2 < 2 ^ fuel
half_fuel fuel size h = omega (arith, pow-suc 2 fuel)

undone :
    (size ptr : ℕ) (node c₀ c₁ : Mnode)
    → node ≡ mnode true size ptr c₀ c₁
    → (is_allocated c₀ || is_allocated c₁) ≡ true
    → merged size ptr c₀ c₁ ≡ (node, not (is_allocated node))
undone size ptr node c₀ c₁ e some_there = elim (Bool-cases (is_allocated c₀)) [
  | inl h ↦ rw (e, h) refl
  | inr h ↦ let other : is_allocated c₁ ≡ true = ground arith in rw (e, h, other) refl
]

-- The search in the two halves, after each is known to return as it should.
module _ (want fuel size ptr : ℕ) (node c₀ c₁ : Mnode) (allocs : List Bool) where
  halves :
      Returns want (size / 2) ptr c₀ allocs (mem_alloc want fuel c₀ allocs)
      → Returns want (size / 2) (ptr + size / 2) c₁ allocs (mem_alloc want fuel c₁ allocs)
      → Covers (size / 2) ptr c₀
      → Covers (size / 2) (ptr + size / 2) c₁
      → blocks node ≡ blocks c₀ ++ blocks c₁
      → Covers size ptr node
      → node ≡ mnode true size ptr c₀ c₁
      → (is_allocated c₀ || is_allocated c₁) ≡ true
      → Returns want size ptr node allocs (elim (mem_alloc want fuel c₀ allocs) [
        | none ↦ none
        | some (some path, e₀, allocs₁) ↦
            some (some (false ∷ path), mnode true size ptr e₀ c₁, allocs₁)
        | some (none, e₀, allocs₁) ↦ elim (mem_alloc want fuel c₁ allocs₁) [
          | none ↦ none
          | some (some path, e₁, allocs₂) ↦
              some (some (true ∷ path), mnode true size ptr e₀ e₁, allocs₂)
          | some (none, e₁, allocs₂) ↦ some (none, mnode true size ptr e₀ e₁, allocs₂)
        ]
      ])
  halves (some path, e₀, allocs', run, ok, found, same) r₁ k₀ k₁ split_eq k e some_there =
      let back = undone size ptr node c₀ c₁ e some_there in
      let (joined, here) =
        Found-left want fuel size ptr node e₀ c₁ path allocs c₀ ok k₁ found split_eq back in
      rw run (some (false ∷ path), _, allocs', refl, joined, here, λ h. absurd (cc))
  halves (none, e₀, allocs', run, ok, (unchanged, full), same)
        (some path, e₁, allocs₂, run₁, ok₁, found₁, same₁) k₀ k₁ split_eq k e some_there =
      let back = undone size ptr node c₀ c₁ e some_there in
      let (joined, here) =
        Found-right want fuel size ptr node c₀ e₁ path allocs c₁ k₀ ok₁ found₁ split_eq back in
      rw (run, same refl, run₁, unchanged)
        (some (true ∷ path), _, allocs₂, refl, joined, here, λ h. absurd (cc))
  halves (none, e₀, allocs', run, ok, (unchanged, full), same)
        (none, e₁, allocs₂, run₁, ok₁, (unchanged₁, full₁), same₁) k₀ k₁ split_eq k e some_there =
      rw (run, same refl, run₁, unchanged, unchanged₁, same₁ refl)
        (
          none,
          _,
          allocs,
          refl,
          subst (Covers size ptr) e k,
          (sym e, ap (room want) e ∙ rw (full, full₁) refl),
          λ h. refl,
        )

Returns-at :
    (want fuel size ptr : ℕ) (node node' : Mnode) (allocs allocs' : List Bool)
    → node ≡ node'
    → allocs ≡ allocs'
    → Returns want size ptr node allocs (mem_alloc want fuel node allocs)
    → Returns want size ptr node' allocs' (mem_alloc want fuel node' allocs')
Returns-at want fuel size ptr node node' allocs allocs' e f r =
    subst (λ n. Returns want size ptr n allocs' (mem_alloc want fuel n allocs')) e
      (subst (λ l. Returns want size ptr node l (mem_alloc want fuel node l)) f r)

-- The search in the first of two new halves.
fresh_half :
    (want fuel size ptr : ℕ) (rest : List Bool)
    → ltb (size / 2) want ≡ false
    → (let first = ixmap_mnode_alloc ptr (size / 2) in
        Returns want (size / 2) ptr first rest (mem_alloc want fuel first rest))
    → (let node = mnode false size ptr null null in
        Returns want size ptr node
          (true ∷ true ∷ rest)
          (mem_alloc want (suc fuel) node (true ∷ true ∷ rest)))
unfolding mem_alloc split
fresh_half want fuel size ptr rest large (none, e₀, allocs', run, ok, (unchanged, full), same) =
    absurd (ground arith)
fresh_half want fuel size ptr rest large (some path, e₀, allocs', run, ok, found, same) =
    let half = size / 2 in
    let (joined, here) =
      Found-left want fuel size ptr (mnode false size ptr null null) e₀
        (ixmap_mnode_alloc (ptr + half) half) path rest (ixmap_mnode_alloc ptr half) ok (refl, refl)
        found refl refl in
    rw (mem_alloc, large, run)
      (some (false ∷ path), _, allocs', refl, joined, here, λ h. absurd (cc))

-- A block that is given out.
Returns-block :
    (want fuel size ptr : ℕ) (allocs : List Bool)
    → 1 ≤ size
    → 1 ≤ want
    → size < 2 ^ suc fuel
    → let node = mnode true size ptr null null in
      Returns want size ptr node allocs (mem_alloc want (suc fuel) node allocs)
unfolding mem_alloc split
Returns-block want fuel size ptr allocs s w f = elim (Bool-cases (ltb (size / 2) want)) [
  | inl small ↦ rw (mem_alloc, small) (none, _, allocs, refl, (refl, refl), (refl, refl), λ h. refl)
  | inr large ↦
      let nothing =
        mem_alloc-null want fuel allocs
          (fuel_left fuel (size / 2) (ground arith) (half_fuel fuel size f)) in
      rw (mem_alloc, large, nothing, nothing)
        (none, _, allocs, refl, (refl, refl), (refl, refl), λ h. refl)
]

-- A node without children that is not to be split.
Returns-whole :
    (want fuel size ptr : ℕ) (allocs : List Bool)
    → ltb (size / 2) want ≡ true
    → let node = mnode false size ptr null null in
      Returns want size ptr node allocs (mem_alloc want (suc fuel) node allocs)
unfolding mem_alloc split mem_free
Returns-whole want fuel size ptr allocs small = elim (Bool-cases (leb want size)) [
  | inl fits ↦
      rw (mem_alloc, small, fits)
        (
          some [],
          _,
          allocs,
          refl,
          (refl, refl),
          ((ptr, size), ([], [], refl, refl), ground arith, ground arith, refl, refl, refl),
          λ h. absurd (cc),
        )
  | inr more ↦
      rw (mem_alloc, small, more) (none, _, allocs, refl, (refl, refl), (refl, more), λ h. refl)
]

-- A node whose halves are too small.
Returns-narrow :
    (want fuel size ptr : ℕ) (c₀ c₁ : Mnode) (allocs : List Bool)
    → ltb (size / 2) want ≡ true
    → Covers (size / 2) ptr c₀
    → Covers (size / 2) (ptr + size / 2) c₁
    → let node = mnode true size ptr c₀ c₁ in
      Covers size ptr node
      → Returns want size ptr node allocs (mem_alloc want (suc fuel) node allocs)
unfolding mem_alloc split
Returns-narrow want fuel size ptr c₀ c₁ allocs small k₀ k₁ here =
    let full₀ = room-small want (size / 2) ptr c₀ k₀ (ground arith) in
    let full₁ = room-small want (size / 2) (ptr + size / 2) c₁ k₁ (ground arith) in
    rw (mem_alloc, small) (none, _, allocs, refl, here, (refl, rw (full₀, full₁) refl), λ h. refl)

-- A node that is split: the search goes on in the first of the new halves.
Returns-split :
    (want fuel size ptr : ℕ) (allocs : List Bool)
    → ltb (size / 2) want ≡ false
    → Ample (suc fuel + suc fuel) allocs
    → ((rest : List Bool)
        → Ample (fuel + fuel) rest
        → let first = ixmap_mnode_alloc ptr (size / 2) in
          Returns want (size / 2) ptr first rest (mem_alloc want fuel first rest))
    → let node = mnode false size ptr null null in
      Returns want size ptr node allocs (mem_alloc want (suc fuel) node allocs)
Returns-split want fuel size ptr allocs large a search =
    let (rest, e_rest, a') =
      Ample-two (fuel + fuel) allocs
        (Ample-mono (suc (suc (fuel + fuel))) (suc fuel + suc fuel) allocs (omega arith) a) in
    let node = mnode false size ptr null null in
    Returns-at want (suc fuel) size ptr node node (true ∷ true ∷ rest) allocs refl (sym e_rest)
      (fresh_half want fuel size ptr rest large (search rest a'))

-- `_ixmap_mem_alloc` with enough fuel, and memory for its nodes, returns what `Returns` says.
pub mem_alloc-Returns :
    (want fuel size ptr : ℕ) (node : Mnode) (allocs : List Bool)
    → 1 ≤ want
    → 1 ≤ size
    → size < 2 ^ fuel
    → Ample (fuel + fuel) allocs
    → Covers size ptr node
    → Returns want size ptr node allocs (mem_alloc want fuel node allocs)
unfolding mem_alloc split
mem_alloc-Returns want zero size ptr node allocs w s f a c = absurd (omega arith)
mem_alloc-Returns want (suc fuel) size ptr null allocs w s f a c = absurd c
mem_alloc-Returns want (suc fuel) size ptr (mnode x n p null (mnode b t q d₀ d₁)) allocs w s f a c =
    absurd c
mem_alloc-Returns want (suc fuel) size ptr (mnode true n p null null) allocs w s f a (e, e') =
    Returns-at want (suc fuel) size ptr (mnode true size ptr null null) (mnode true n p null null)
      allocs allocs (ap₂ (λ n p. mnode true n p null null) (sym e) (sym e')) refl
      (Returns-block want fuel size ptr allocs s w f)
mem_alloc-Returns want (suc fuel) size ptr (mnode false n p null null) allocs w s f a (e, e') =
    Returns-at want (suc fuel) size ptr (mnode false size ptr null null) (mnode false n p null null)
      allocs allocs (ap₂ (λ n p. mnode false n p null null) (sym e) (sym e')) refl
      (elim (Bool-cases (ltb (size / 2) want)) [
        | inl small ↦ Returns-whole want fuel size ptr allocs small
        | inr large ↦ Returns-split want fuel size ptr allocs large a (λ rest a'.
            mem_alloc-Returns want fuel (size / 2) ptr (ixmap_mnode_alloc ptr (size / 2)) rest w
              (ground arith) (half_fuel fuel size f) a' (refl, refl))
      ])
mem_alloc-Returns want (suc fuel) size ptr (mnode false n p (mnode b t q d₀ d₁) c₁) allocs w s f a
      c =
    absurd (cc)
mem_alloc-Returns want (suc fuel) size ptr (mnode true n p (mnode b t q d₀ d₁) c₁) allocs w s f a
      ((e, e', h), k₀, k₁, some_there) =
    let c₀ = mnode b t q d₀ d₁ in
    let node = mnode true size ptr c₀ c₁ in
    let here : Covers size ptr node = ((refl, refl, refl), k₀, k₁, some_there) in
    let a' = Ample-mono (fuel + fuel) (suc fuel + suc fuel) allocs (omega arith) a in
    let r₀ : 1 ≤ size / 2 → Returns want (size / 2) ptr c₀ allocs (mem_alloc want fuel c₀ allocs) =
      λ pos.
        mem_alloc-Returns want fuel (size / 2) ptr c₀ allocs w pos (half_fuel fuel size f) a' k₀ in
    let r₁ : 1 ≤ size / 2
        → Returns want (size / 2) (ptr + size / 2) c₁ allocs (mem_alloc want fuel c₁ allocs) =
      λ pos.
        mem_alloc-Returns want fuel (size / 2) (ptr + size / 2) c₁ allocs w pos
          (half_fuel fuel size f) a' k₁ in
    Returns-at want (suc fuel) size ptr node (mnode true n p c₀ c₁) allocs allocs
      (ap₂ (λ n p. mnode true n p c₀ c₁) (sym e) (sym e')) refl
      (elim (Bool-cases (ltb (size / 2) want)) [
        | inl small ↦ Returns-narrow want fuel size ptr c₀ c₁ allocs small k₀ k₁ here
        | inr large ↦
            rw (mem_alloc, large)
              (halves want fuel size ptr node c₀ c₁ allocs (r₀ (ground arith)) (r₁ (ground arith))
                k₀ k₁ refl here refl some_there)
      ])
