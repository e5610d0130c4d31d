-- ===== src/Memory/Alloc.antt =====
-- What `_ixmap_mem_alloc` of lib/memory.c finds in a tree in order, and in either half of a node.
use ixmap.Base.{
  ℕ, zero, suc, ◌+◌, ◌/◌, ◌≤◌, ◌<◌, ◌≡◌, refl, List, [], ◌∷◌, ◌++◌, Bool, true, false, not, ◌&&◌,
  Option, none, some, arith, if◌then◌else◌,
}
use ixmap.Memory.{Mnode, null, mnode, is_allocated, mem_alloc, mem_free}
use ixmap.Memory.Blocks.{
  blocks, Covers, room, Leads, OneMore, OneMore-append_left, OneMore-append_right, Covers-join,
  blocks-join,
}

-- The next `n` calls of `numa_alloc_onnode` succeed.
abbrev pub Ample : ℕ → List Bool → Type 0
Ample zero allocs = Unit
Ample (suc n) [] = ⊥
Ample (suc n) (b ∷ allocs) = (b ≡ true) × Ample n allocs

-- What a call finds: NULL, and then the tree is as before and has no room; or the path to a new
-- block, which is large enough and would be too small if it were halved.
abbrev pub Found : ℕ → Mnode → Option (List Bool) × Mnode → Type 0
Found want node (none, node') = (node' ≡ node) × (room want node ≡ false)
Found want node (some path, node') =
    (block : ℕ × ℕ) × OneMore block (blocks node) (blocks node')
    × (want ≤ block.1)
    × (block.1 / 2 < want)
    × Leads node' path block
    × (is_allocated node' ≡ true)
    × (mem_free node' path ≡ (node, not (is_allocated node)))

-- What a call returns.
abbrev pub Returns :
    ℕ → ℕ → ℕ → Mnode → List Bool → Option (Option (List Bool) × Mnode × List Bool) → Type 0
Returns want size ptr node allocs result =
    (ret : Option (List Bool)) × (node' : Mnode) × (allocs' : List Bool) × (result
      ≡ some (ret, node', allocs'))
    × Covers size ptr node'
    × Found want node (ret, node')
    × (ret ≡ none → allocs' ≡ allocs)

Leads-left :
    (size ptr n m : ℕ) (e₀ e₁ : Mnode) (path : List Bool) (block : ℕ × ℕ)
    → Leads e₀ path block
    → Leads (mnode true size ptr e₀ e₁) (false ∷ path) block
Leads-left size ptr n m null e₁ path block l = absurd l
Leads-left size ptr n m (mnode a s p d₀ d₁) e₁ path block l = l

Leads-right :
    (size ptr n m : ℕ) (e₀ e₁ : Mnode) (path : List Bool) (block : ℕ × ℕ)
    → Covers n m e₀
    → Leads e₁ path block
    → Leads (mnode true size ptr e₀ e₁) (true ∷ path) block
Leads-right size ptr n m null e₁ path block c l = absurd c
Leads-right size ptr n m (mnode a s p d₀ d₁) e₁ path block c l = l

pub mem_alloc-null :
    (want fuel : ℕ) (allocs : List Bool)
    → 0 < fuel
    → mem_alloc want fuel null allocs ≡ some (none, null, allocs)
unfolding mem_alloc
mem_alloc-null want zero allocs h = absurd (omega arith)
mem_alloc-null want (suc fuel) allocs h = refl

-- What mem_free makes of an allocated node when one half is as before.
abbrev pub merged : ℕ → ℕ → Mnode → Mnode → Mnode × Bool
merged size ptr d₀ d₁ =
    if not (is_allocated d₀) && not (is_allocated d₁)
    then (mnode false size ptr null null, true)
    else (mnode true size ptr d₀ d₁, false)

module _ (want fuel size ptr : ℕ) (node e₀ e₁ : Mnode) (path : List Bool) (allocs : List Bool) where
  -- The block is found in the first half.
  pub Found-left :
      (c₀ : Mnode) (c : Covers (size / 2) ptr e₀) (d : Covers (size / 2) (ptr + size / 2) e₁)
      → Found want c₀ (some path, e₀)
      → blocks node ≡ blocks c₀ ++ blocks e₁
      → merged size ptr c₀ e₁ ≡ (node, not (is_allocated node))
      → Covers size ptr (mnode true size ptr e₀ e₁)
        × Found want node (some (false ∷ path), mnode true size ptr e₀ e₁)
  unfolding mem_free
  Found-left c₀ c d (block, more, large, tight, leads, held, undo) same back = (
    Covers-join size ptr e₀ e₁ c d (ground arith),
    (
      block,
      rw (same, blocks-join size ptr (size / 2) ptr e₀ e₁ c)
          (OneMore-append_left block (blocks c₀) (blocks e₀) (blocks e₁) more),
      large,
      tight,
      Leads-left size ptr (size / 2) ptr e₀ e₁ path block leads,
      refl,
      ground (arith, undo, back),
    ),
  )

  pub Found-right :
      (c₁ : Mnode) (c : Covers (size / 2) ptr e₀) (d : Covers (size / 2) (ptr + size / 2) e₁)
      → Found want c₁ (some path, e₁)
      → blocks node ≡ blocks e₀ ++ blocks c₁
      → merged size ptr e₀ c₁ ≡ (node, not (is_allocated node))
      → Covers size ptr (mnode true size ptr e₀ e₁)
        × Found want node (some (true ∷ path), mnode true size ptr e₀ e₁)
  unfolding mem_free
  Found-right c₁ c d (block, more, large, tight, leads, held, undo) same back = (
    Covers-join size ptr e₀ e₁ c d (ground arith),
    (
      block,
      rw (same, blocks-join size ptr (size / 2) ptr e₀ e₁ c)
          (OneMore-append_right block (blocks c₁) (blocks e₁) (blocks e₀) more),
      large,
      tight,
      Leads-right size ptr (size / 2) ptr e₀ e₁ path block c leads,
      refl,
      ground (arith, undo, back),
    ),
  )
