-- ===== src/Memory/Blocks.antt =====
-- The blocks that the buddy allocator of lib/memory.c has given out, and the order of its tree.
use ixmap.Base.{
  ℕ, ◌+◌, ◌/◌, ◌≤◌, ◌<◌, ◌≡◌, refl, List, [], ◌∷◌, ◌++◌, Bool, true, false, arith, ◌||◌, leb, ap,
  sym, ◌∙◌, append_assoc,
}
use ixmap.Memory.{Mnode, null, mnode, is_allocated}

-- The address and size of each block, in the order of the addresses. Below a node that is not
-- allocated nothing is in use.
abbrev pub blocks : Mnode → List (ℕ × ℕ)
blocks null = []
blocks (mnode false size ptr c₀ c₁) = []
blocks (mnode true size ptr null c₁) = (ptr, size) ∷ []
blocks (mnode true size ptr (mnode a s p d₀ d₁) c₁) = blocks (mnode a s p d₀ d₁) ++ blocks c₁

-- The node covers `size` bytes from `ptr`; it has no children, or it is allocated and has two that
-- split it, at least one of them allocated.
abbrev pub Covers : ℕ → ℕ → Mnode → Type 0
Covers size ptr null = ⊥
Covers size ptr (mnode a s p null null) = (s ≡ size) × (p ≡ ptr)
Covers size ptr (mnode a s p null (mnode b t q d₀ d₁)) = ⊥
Covers size ptr (mnode a s p (mnode b t q d₀ d₁) c₁) =
    ((s ≡ size) × (p ≡ ptr) × (a ≡ true))
    × Covers (size / 2) ptr (mnode b t q d₀ d₁)
    × Covers (size / 2) (ptr + size / 2) c₁
    × ((b || is_allocated c₁) ≡ true)

-- Each block begins at the end of the one before it or later, and the last ends at `hi` or before.
abbrev pub Apart : ℕ → ℕ → List (ℕ × ℕ) → Type 0
Apart lo hi [] = Unit
Apart lo hi ((ptr, size) ∷ rest) = (lo ≤ ptr) × (ptr + size ≤ hi) × Apart (ptr + size) hi rest

-- Whether a node that is not allocated, and not part of a larger one, has `want` bytes.
abbrev pub room : ℕ → Mnode → Bool
room want null = false
room want (mnode false size ptr c₀ c₁) = leb want size
room want (mnode true size ptr c₀ c₁) = room want c₀ || room want c₁

-- The path leads through allocated nodes to a block.
abbrev pub Leads : Mnode → List Bool → ℕ × ℕ → Type 0
Leads null path block = ⊥
Leads (mnode false size ptr c₀ c₁) path block = ⊥
Leads (mnode true size ptr null c₁) [] block = (ptr, size) ≡ block
Leads (mnode true size ptr (mnode a s p d₀ d₁) c₁) [] block = ⊥
Leads (mnode true size ptr c₀ c₁) (false ∷ path) block = Leads c₀ path block
Leads (mnode true size ptr c₀ c₁) (true ∷ path) block = Leads c₁ path block

-- The lists differ in one block that the second has.
abbrev pub OneMore : ℕ × ℕ → List (ℕ × ℕ) → List (ℕ × ℕ) → Type 0
OneMore block xs ys =
    (before : List (ℕ × ℕ)) × (after : List (ℕ × ℕ)) × (xs ≡ before ++ after)
    × (ys ≡ before ++ (block ∷ after))

pub OneMore-append_left :
    (block : ℕ × ℕ) (xs ys zs : List (ℕ × ℕ))
    → OneMore block xs ys
    → OneMore block (xs ++ zs) (ys ++ zs)
OneMore-append_left block xs ys zs (before, after, e, f) = (
  before,
  after ++ zs,
  ap (λ l. l ++ zs) e ∙ append_assoc before after zs,
  ap (λ l. l ++ zs) f ∙ append_assoc before (block ∷ after) zs,
)

pub OneMore-append_right :
    (block : ℕ × ℕ) (xs ys zs : List (ℕ × ℕ))
    → OneMore block xs ys
    → OneMore block (zs ++ xs) (zs ++ ys)
OneMore-append_right block xs ys zs (before, after, e, f) = (
  zs ++ before,
  after,
  ap (λ l. zs ++ l) e ∙ sym (append_assoc zs before after),
  ap (λ l. zs ++ l) f ∙ sym (append_assoc zs before (block ∷ after)),
)

-- A node over two that cover its halves.
pub Covers-join :
    (size ptr : ℕ) (e₀ e₁ : Mnode)
    → Covers (size / 2) ptr e₀
    → Covers (size / 2) (ptr + size / 2) e₁
    → (is_allocated e₀ || is_allocated e₁) ≡ true
    → Covers size ptr (mnode true size ptr e₀ e₁)
Covers-join size ptr null e₁ c d h = absurd c
Covers-join size ptr (mnode b t q d₀ d₁) e₁ c d h = ((refl, refl, refl), c, d, h)

pub blocks-join :
    (size ptr n m : ℕ) (e₀ e₁ : Mnode)
    → Covers n m e₀
    → blocks (mnode true size ptr e₀ e₁) ≡ blocks e₀ ++ blocks e₁
blocks-join size ptr n m null e₁ c = absurd c
blocks-join size ptr n m (mnode b t q d₀ d₁) e₁ c = refl

pub room-small :
    (want size ptr : ℕ) (node : Mnode) → Covers size ptr node → size < want → room want node ≡ false
room-small want size ptr null c h = refl
room-small want size ptr (mnode false s p null null) c h = ground arith
room-small want size ptr (mnode true s p null null) c h = refl
room-small want size ptr (mnode a s p null (mnode b t q d₀ d₁)) c h = absurd c
room-small want size ptr (mnode false s p (mnode b t q d₀ d₁) c₁) c h = absurd (cc)
room-small want size ptr (mnode true s p (mnode b t q d₀ d₁) c₁) (here, c, d, some_there) h =
    rw
      (
        room-small want (size / 2) ptr (mnode b t q d₀ d₁) c (omega arith),
        room-small want (size / 2) (ptr + size / 2) c₁ d (omega arith),
      )
      refl

Apart-append :
    (lo mid hi : ℕ) (xs ys : List (ℕ × ℕ))
    → lo ≤ mid
    → mid ≤ hi
    → Apart lo mid xs
    → Apart mid hi ys
    → Apart lo hi (xs ++ ys)
Apart-append lo mid hi [] [] l m a b = tt
Apart-append lo mid hi [] ((p, s) ∷ ys) l m a b = (omega arith, b.1, b.2)
Apart-append lo mid hi ((p, s) ∷ xs) ys l m a b =
    (a.0, omega arith, Apart-append (p + s) mid hi xs ys a.1 m a.2 b)

Apart-mono : (lo hi hi' : ℕ) (xs : List (ℕ × ℕ)) → hi ≤ hi' → Apart lo hi xs → Apart lo hi' xs
Apart-mono lo hi hi' [] h a = tt
Apart-mono lo hi hi' ((p, s) ∷ xs) h a = (a.0, omega arith, Apart-mono (p + s) hi hi' xs h a.2)

-- The blocks of a tree in order lie inside of what the tree covers and do not overlap.
pub blocks-Apart :
    (size ptr : ℕ) (node : Mnode) → Covers size ptr node → Apart ptr (ptr + size) (blocks node)
blocks-Apart size ptr null c = absurd c
blocks-Apart size ptr (mnode false s p null null) c = tt
blocks-Apart size ptr (mnode true s p null null) c = (omega arith, omega arith, tt)
blocks-Apart size ptr (mnode a s p null (mnode b t q d₀ d₁)) c = absurd c
blocks-Apart size ptr (mnode false s p (mnode b t q d₀ d₁) c₁) c = tt
blocks-Apart size ptr (mnode true s p (mnode b t q d₀ d₁) c₁) (here, c, d, some_there) =
    Apart-append ptr (ptr + size / 2) (ptr + size) (blocks (mnode b t q d₀ d₁)) (blocks c₁)
      (omega arith) (omega arith) (blocks-Apart (size / 2) ptr (mnode b t q d₀ d₁) c)
      (Apart-mono (ptr + size / 2) (ptr + size / 2 + size / 2) (ptr + size) (blocks c₁)
        (omega arith) (blocks-Apart (size / 2) (ptr + size / 2) c₁ d))
