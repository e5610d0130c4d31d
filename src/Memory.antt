-- ===== src/Memory.antt =====
-- lib/memory.c and lib/memory.h: the buddy allocator. A node owns its children; `parent` and
-- `index` are the path from the root, on which `ixmap_mem_free` climbs. `null` is a NULL child. The
-- header that `ixmap_mem_alloc` writes in front of a block is the path to its node. How the calls
-- of `numa_alloc_onnode` end is a list (none left: NULL); `numa_free` is not followed.
pub mod Blocks
pub mod Alloc
pub mod Search
pub mod Free
mod Examples
use ixmap.Base.{
  ℕ, zero, suc, ◌+◌, ◌*◌, ◌/◌, ◌%◌, ◌^◌, List, [], ◌∷◌, Bool, true, false, not, ◌&&◌, Option, none,
  some, ltb, leb, if◌then◌else◌,
}
use ixmap.Lpm.{mem_next}

pub data Mnode : Type 0 where
  null : Mnode
  mnode : Bool → ℕ → ℕ → Mnode → Mnode → Mnode

abbrev pub is_allocated : Mnode → Bool
is_allocated null = false
is_allocated (mnode allocated size ptr c₀ c₁) = allocated

abbrev pub ptr_of : Mnode → ℕ
ptr_of null = 0
ptr_of (mnode allocated size ptr c₀ c₁) = ptr

-- `ixmap_mnode_alloc` with memory.
abbrev pub ixmap_mnode_alloc : ℕ → ℕ → Mnode
ixmap_mnode_alloc ptr size = mnode false size ptr null null

pub ixmap_mem_init : ℕ → ℕ → List Bool → Mnode × List Bool
ixmap_mem_init ptr size allocs =
    (if (mem_next allocs).0 then ixmap_mnode_alloc ptr size else null, (mem_next allocs).1)

-- The two children that the search goes on in: those that are there, or new ones if the node is
-- not allocated. The first component is false if one of these cannot be had.
pub split : Bool → ℕ → ℕ → Mnode → Mnode → List Bool → Bool × Mnode × Mnode × List Bool
split true size ptr c₀ c₁ allocs = (true, c₀, c₁, allocs)
split false size ptr c₀ c₁ allocs =
    let half = size / 2 in
    let (first, allocs₁) = mem_next allocs in
    let (second, allocs₂) = mem_next allocs₁ in
    if first
    then if second
      then (true, ixmap_mnode_alloc ptr half, ixmap_mnode_alloc (ptr + half) half, allocs₂)
      else (false, null, null, allocs₂)
    else (false, null, c₁, allocs₁)

-- `_ixmap_mem_alloc`: the path to the node that it returns (`none`: NULL), the node as it leaves it
-- and the calls to come. `fuel` bounds the depth; the outer `none` means that it ran out.
pub mem_alloc : ℕ → ℕ → Mnode → List Bool → Option (Option (List Bool) × Mnode × List Bool)
mem_alloc want zero node allocs = none
mem_alloc want (suc fuel) null allocs = some (none, null, allocs)
mem_alloc want (suc fuel) (mnode allocated size ptr c₀ c₁) allocs =
    let (ok, d₀, d₁, allocs') = split allocated size ptr c₀ c₁ allocs in
    elim (ltb (size / 2) want) [
      | true ↦ some (
          if not allocated && leb want size
          then (some [], mnode true size ptr c₀ c₁, allocs)
          else (none, mnode allocated size ptr c₀ c₁, allocs))
      | false ↦ elim ok [
        | false ↦ some (none, mnode allocated size ptr d₀ d₁, allocs')
        | true ↦ elim (mem_alloc want fuel d₀ allocs') [
          | none ↦ none
          | some (some path, e₀, allocs₁) ↦
              some (some (false ∷ path), mnode true size ptr e₀ d₁, allocs₁)
          | some (none, e₀, allocs₁) ↦ elim (mem_alloc want fuel d₁ allocs₁) [
            | none ↦ none
            | some (some path, e₁, allocs₂) ↦
                some (some (true ∷ path), mnode true size ptr e₀ e₁, allocs₂)
            | some (none, e₁, allocs₂) ↦ some (none, mnode allocated size ptr e₀ e₁, allocs₂)
          ]
        ]
      ]
    ]

abbrev pub l1_cache_bytes : ℕ
l1_cache_bytes = 64

-- `ALIGN(x, L1_CACHE_BYTES)` on an `unsigned int`.
abbrev pub align : ℕ → ℕ
align x = (x + 63) % 2 ^ 32 / l1_cache_bytes * l1_cache_bytes

-- The node at the end of a path.
abbrev pub node_at : Mnode → List Bool → Mnode
node_at node [] = node
node_at null (b ∷ path) = null
node_at (mnode allocated size ptr c₀ c₁) (false ∷ path) = node_at c₀ path
node_at (mnode allocated size ptr c₀ c₁) (true ∷ path) = node_at c₁ path

-- The fuel is one more than the width of `unsigned int`. Beside the address stands the header.
pub ixmap_mem_alloc : ℕ → Mnode → List Bool → Option (Option (ℕ × List Bool) × Mnode × List Bool)
ixmap_mem_alloc size root allocs =
    elim (mem_alloc ((align size + align 8) % 2 ^ 32) 33 root allocs) [
      | none ↦ none
      | some (none, root', allocs') ↦ some (none, root', allocs')
      | some (some path, root', allocs') ↦
          some (some (ptr_of (node_at root' path) + align 8, path), root', allocs')
    ]

-- `_ixmap_mem_free` of the node at a path, with whether it climbed on past this node. A node is
-- marked as free; if its buddy is free too both are released and their parent is freed.
pub mem_free : Mnode → List Bool → Mnode × Bool
mem_free null path = (null, false)
mem_free (mnode allocated size ptr c₀ c₁) [] = (mnode false size ptr c₀ c₁, true)
mem_free (mnode allocated size ptr c₀ c₁) (false ∷ path) =
    let (c₀', up) = mem_free c₀ path in
    if up && not (is_allocated c₁)
    then (mnode false size ptr null null, true)
    else (mnode allocated size ptr c₀' c₁, false)
mem_free (mnode allocated size ptr c₀ c₁) (true ∷ path) =
    let (c₁', up) = mem_free c₁ path in
    if up && not (is_allocated c₀)
    then (mnode false size ptr null null, true)
    else (mnode allocated size ptr c₀ c₁', false)

-- The header leads back to the node.
pub ixmap_mem_free : Mnode → List Bool → Mnode
ixmap_mem_free root header = (mem_free root header).0
