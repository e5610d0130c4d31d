-- ===== src/Memory/Free.antt =====
-- ixmap_mem_alloc and ixmap_mem_free of lib/memory.c: the tree stays in order, the blocks given out
-- do not overlap, and a free undoes an allocation.
use ixmap.Base.{
  ℕ, ◌+◌, ◌/◌, ◌%◌, ◌^◌, ◌≤◌, ◌<◌, ◌≡◌, refl, ap, List, [], ◌∷◌, ◌++◌, Bool, true, false, not, ◌&&◌,
  Option, none, some, arith, if◌then◌else◌,
}
use ixmap.Memory.{
  Mnode, null, mnode, is_allocated, ptr_of, node_at, mem_alloc, align, ixmap_mem_alloc, mem_free,
  ixmap_mem_free,
}
use ixmap.Memory.Blocks.{
  blocks, Covers, room, Leads, OneMore, OneMore-append_left, OneMore-append_right, Covers-join,
  blocks-join, Apart, blocks-Apart,
}
use ixmap.Memory.Alloc.{Ample, Found}
use ixmap.Memory.Search.{mem_alloc-Returns}

node_at-Leads :
    (node : Mnode) (path : List Bool) (block : ℕ × ℕ)
    → Leads node path block
    → ptr_of (node_at node path) ≡ block.0
node_at-Leads null path block l = absurd l
node_at-Leads (mnode false size ptr c₀ c₁) path block l = absurd l
node_at-Leads (mnode true size ptr null c₁) [] block l = ap (λ (b : ℕ × ℕ). b.0) l
node_at-Leads (mnode true size ptr (mnode a s p d₀ d₁) c₁) [] block l = absurd l
node_at-Leads (mnode true size ptr null c₁) (false ∷ path) block l = absurd l
node_at-Leads (mnode true size ptr (mnode a s p d₀ d₁) c₁) (false ∷ path) block l =
    node_at-Leads (mnode a s p d₀ d₁) path block l
node_at-Leads (mnode true size ptr null c₁) (true ∷ path) block l = node_at-Leads c₁ path block l
node_at-Leads (mnode true size ptr (mnode a s p d₀ d₁) c₁) (true ∷ path) block l =
    node_at-Leads c₁ path block l

-- What ixmap_mem_alloc returns: NULL, and then the tree is as before and has no room for the block
-- with its header; or an address with its header, behind the first 64 bytes of a new block that
-- has `size` bytes from there on, and ixmap_mem_free takes the tree back to what it was.
abbrev pub Allocates : ℕ → Mnode → Option (ℕ × List Bool) × Mnode → Type 0
Allocates size root (none, root') = (root' ≡ root) × (room (align size + 64) root ≡ false)
Allocates size root (some (addr, header), root') =
    (block : ℕ × ℕ) × OneMore block (blocks root) (blocks root')
    × (addr ≡ block.0 + 64)
    × (addr + size ≤ block.0 + block.1)
    × Leads root' header block
    × (ixmap_mem_free root' header ≡ root)

allocates :
    (size want : ℕ) (root : Mnode) (ret : Option (List Bool)) (root' : Mnode)
    → want ≡ align size + 64
    → size ≤ align size
    → Found want root (ret, root')
    → Allocates size root (elim ret [
      | none ↦ (none, root')
      | some path ↦ (some (ptr_of (node_at root' path) + 64, path), root')
    ])
unfolding ixmap_mem_free
allocates size want root none root' e fits (same, full) = (same, rw (← e) full)
allocates size want root (some path) root' e fits (block, more, large, tight, leads, held, undo) =
    let at = node_at-Leads root' path block leads in
    (block, more, omega arith, omega arith, leads, ap (λ (p : Mnode × Bool). p.0) undo)

given :
    (size total ptr : ℕ) (root root' : Mnode) (allocs allocs' : List Bool)
    (path : Option (List Bool))
    → mem_alloc ((align size + 64) % 2 ^ 32) 33 root allocs ≡ some (path, root', allocs')
    → Covers total ptr root'
    → Found ((align size + 64) % 2 ^ 32) root (path, root')
    → (align size + 64) % 2 ^ 32 ≡ align size + 64
    → size ≤ align size
    → (ret : Option (ℕ × List Bool)) × (root' : Mnode) × (allocs' : List Bool) × (ixmap_mem_alloc
          size root allocs
        ≡ some (ret, root', allocs'))
      × Covers total ptr root'
      × Apart ptr (ptr + total) (blocks root')
      × Allocates size root (ret, root')
unfolding ixmap_mem_alloc
given size total ptr root root' allocs allocs' none run ok found e fits =
    let here = allocates size _ root none root' e fits found in
    rw (ixmap_mem_alloc, run)
      (none, root', allocs', refl, ok, blocks-Apart total ptr root' ok, here)
given size total ptr root root' allocs allocs' (some path) run ok found e fits =
    let here = allocates size _ root (some path) root' e fits found in
    rw (ixmap_mem_alloc, run)
      (
        some (ptr_of (node_at root' path) + 64, path),
        root',
        allocs',
        refl,
        ok,
        blocks-Apart total ptr root' ok,
        here,
      )

-- ixmap_mem_alloc on a tree in order, with memory for its nodes and a size that does not overflow
-- `unsigned int`, returns within its fuel; the tree is in order again, so that its blocks do not
-- overlap and lie in its range; what is returned is as `Allocates` says.
pub ixmap_mem_alloc-Allocates :
    (size total ptr : ℕ) (root : Mnode) (allocs : List Bool)
    → size + 128 < 2 ^ 32
    → 1 ≤ total
    → total < 2 ^ 32
    → Ample 66 allocs
    → Covers total ptr root
    → (ret : Option (ℕ × List Bool)) × (root' : Mnode) × (allocs' : List Bool) × (ixmap_mem_alloc
          size root allocs
        ≡ some (ret, root', allocs'))
      × Covers total ptr root'
      × Apart ptr (ptr + total) (blocks root')
      × Allocates size root (ret, root')
ixmap_mem_alloc-Allocates size total ptr root allocs small pos bound ample covers =
    let want = (align size + 64) % 2 ^ 32 in
    let (path, root', allocs', run, ok, found, same) =
      mem_alloc-Returns want 33 total ptr root allocs (omega arith) pos (omega arith) ample
        covers in
    given size total ptr root root' allocs allocs' path run ok found (omega arith) (omega arith)

blocks_of_free :
    (size ptr : ℕ) (node : Mnode)
    → Covers size ptr node
    → is_allocated node ≡ false
    → blocks node ≡ []
blocks_of_free size ptr null c h = refl
blocks_of_free size ptr (mnode false s p c₀ c₁) c h = refl
blocks_of_free size ptr (mnode true s p c₀ c₁) c h = absurd (cc)

-- What a call leaves of the node: the block is gone, and the node is not allocated exactly if the
-- call climbs on.
abbrev Freed : ℕ → ℕ → Mnode → ℕ × ℕ → Mnode × Bool → Type 0
Freed size ptr node block (node', up) =
    Covers size ptr node'
    × OneMore block (blocks node') (blocks node)
    × (is_allocated node' ≡ not up)

-- The node over two halves, of which one has just been freed.
merge_freed :
    (size ptr : ℕ) (c₀ c₁ : Mnode) (block : ℕ × ℕ) (used : List (ℕ × ℕ)) (climbs : Bool)
    → Covers (size / 2) ptr c₀
    → Covers (size / 2) (ptr + size / 2) c₁
    → climbs ≡ (not (is_allocated c₀) && not (is_allocated c₁))
    → OneMore block (blocks c₀ ++ blocks c₁) used
    → let (node', up) : Mnode × Bool =
        if climbs
        then (mnode false size ptr null null, true)
        else (mnode true size ptr c₀ c₁, false) in
      Covers size ptr node' × OneMore block (blocks node') used × (is_allocated node' ≡ not up)
merge_freed size ptr c₀ c₁ block used true k₀ k₁ e more =
    let none₀ = blocks_of_free (size / 2) ptr c₀ k₀ (ground arith) in
    let none₁ = blocks_of_free (size / 2) (ptr + size / 2) c₁ k₁ (ground arith) in
    ((refl, refl), rw (none₀, none₁) at more, refl)
merge_freed size ptr c₀ c₁ block used false k₀ k₁ e more = (
  Covers-join size ptr c₀ c₁ k₀ k₁ (ground arith),
  rw (blocks-join size ptr (size / 2) ptr c₀ c₁ k₀) more,
  refl,
)

mem_free-Freed :
    (size ptr : ℕ) (node : Mnode) (path : List Bool) (block : ℕ × ℕ)
    → Covers size ptr node
    → Leads node path block
    → Freed size ptr node block (mem_free node path)
unfolding mem_free
mem_free-Freed size ptr null path block c l = absurd l
mem_free-Freed size ptr (mnode false s p c₀ c₁) path block c l = absurd l
mem_free-Freed size ptr (mnode true s p null null) [] block c l =
    (c, ([], [], refl, ap (λ b. b ∷ []) l), refl)
mem_free-Freed size ptr (mnode true s p null (mnode b t q d₀ d₁)) path block c l = absurd c
mem_free-Freed size ptr (mnode true s p null null) (false ∷ path) block c l = absurd l
mem_free-Freed size ptr (mnode true s p null null) (true ∷ path) block c l = absurd l
mem_free-Freed size ptr (mnode true s p (mnode b t q d₀ d₁) c₁) [] block c l = absurd l
mem_free-Freed size ptr (mnode true s p (mnode b t q d₀ d₁) c₁) (false ∷ path) block
      ((e, e', h), k₀, k₁, some_there) l =
    let c₀ = mnode b t q d₀ d₁ in
    let (k₀', more, held) = mem_free-Freed (size / 2) ptr c₀ path block k₀ l in
    let (c₀', up) = mem_free c₀ path in
    rw (e, e')
      (merge_freed size ptr c₀' c₁ block (blocks c₀ ++ blocks c₁) (up && not (is_allocated c₁)) k₀'
        k₁ (ground arith) (OneMore-append_left block (blocks c₀') (blocks c₀) (blocks c₁) more))
mem_free-Freed size ptr (mnode true s p (mnode b t q d₀ d₁) c₁) (true ∷ path) block
      ((e, e', h), k₀, k₁, some_there) l =
    let c₀ = mnode b t q d₀ d₁ in
    let (k₁', more, held) = mem_free-Freed (size / 2) (ptr + size / 2) c₁ path block k₁ l in
    let (c₁', up) = mem_free c₁ path in
    rw (e, e')
      (merge_freed size ptr c₀ c₁' block (blocks c₀ ++ blocks c₁) (up && not (is_allocated c₀)) k₀
        k₁' (ground arith) (OneMore-append_right block (blocks c₁') (blocks c₁) (blocks c₀) more))

-- ixmap_mem_free of a block that is given out, in a tree in order, leaves a tree in order whose
-- blocks are the others, in their order.
pub ixmap_mem_free-blocks :
    (total ptr : ℕ) (root : Mnode) (header : List Bool) (block : ℕ × ℕ)
    → Covers total ptr root
    → Leads root header block
    → Covers total ptr (ixmap_mem_free root header)
      × OneMore block (blocks (ixmap_mem_free root header)) (blocks root)
unfolding ixmap_mem_free
ixmap_mem_free-blocks total ptr root header block covers leads =
    let (ok, more, held) = mem_free-Freed total ptr root header block covers leads in (ok, more)
