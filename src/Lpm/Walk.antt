-- ===== src/Lpm/Walk.antt =====
-- The entries that a destination meets in the trie, the deepest node first, and lpm_lookup.
use ixmap.Base.{
  ℕ, ◌+◌, ◌≡◌, refl, sym, ◌∙◌, if◌then◌else◌, List, [], ◌∷◌, ◌++◌, false, Option, none, some,
}
use ixmap.Lpm.{
  LpmNode, leaf, inner, LpmTable, head_of, with_head, has_next, is_empty, first_entry, lpm_index,
  non_empty,
}
use ixmap.Lpm.Lookup.{lpm_lookup_below, lpm_lookup}

module _ {P : Type 0} (dst : ℕ → ℕ) where
  -- Every entry in the nodes below this one that `dst` leads through, the deepest first.
  unfoldable pub path_below : ℕ → LpmNode P → List P
  path_below offset (leaf head) = []
  path_below offset (inner head nodes) =
      path_below (offset + 8) (nodes (lpm_index dst offset 8))
      ++ head_of (nodes (lpm_index dst offset 8))

  -- Every entry in the nodes that `dst` leads through, the deepest first.
  unfoldable pub path_entries : LpmTable P → List P
  path_entries table =
      let node = table.node (lpm_index dst 0 16) in path_below 16 node ++ head_of node

module _ {P : Type 0} where
  pub path_below-with_head :
      (dst : ℕ → ℕ) (offset : ℕ) (node : LpmNode P) (head : List P)
      → path_below dst offset (with_head node head) ≡ path_below dst offset node
  unfolding path_below
  path_below-with_head dst offset (leaf h) head = refl
  path_below-with_head dst offset (inner h nodes) head = refl

  pub head_of-with_head : (node : LpmNode P) (head : List P) → head_of (with_head node head) ≡ head
  head_of-with_head (leaf h) head = refl
  head_of-with_head (inner h nodes) head = refl

-- What a search gives, against all that is met.
abbrev Finds : {P : Type 0} → Option (List P) → List P → Type 0
Finds none path = path ≡ []
Finds (some h) path = (first_entry h ≡ first_entry path) × (is_empty path ≡ false)

first_entry-append :
    {P : Type 0} (xs ys : List P)
    → is_empty xs ≡ false
    → (first_entry (xs ++ ys) ≡ first_entry xs) × (is_empty (xs ++ ys) ≡ false)
first_entry-append [] ys h = cc
first_entry-append (x ∷ xs) ys h = (refl, refl)

Finds-append :
    {P : Type 0} (found : Option (List P)) (path head : List P)
    → Finds found path
    → Finds (elim found [ some h ↦ some h | none ↦ non_empty head ]) (path ++ head)
Finds-append none path [] h = rw h
Finds-append none path (x ∷ head) h = rw h (refl, refl)
Finds-append (some f) path head h =
    let (e, n) = first_entry-append path head h.1 in (h.0 ∙ sym e, n)

-- A node with no level below it is searched in its own list alone.
Finds-node :
    {P : Type 0} (dst : ℕ → ℕ) (offset : ℕ) (node : LpmNode P)
    → Finds (lpm_lookup_below dst offset node) (path_below dst offset node)
    → Finds
        (if has_next node
          then elim (lpm_lookup_below dst offset node) [
            | some h ↦ some h
            | none ↦ non_empty (head_of node)
          ]
          else non_empty (head_of node))
        (path_below dst offset node ++ head_of node)
unfolding lpm_lookup_below path_below
Finds-node dst offset (leaf head) h = Finds-append none [] head refl
Finds-node dst offset (inner head nodes) h = Finds-append _ _ head h

lpm_lookup_below-Finds :
    {P : Type 0} (dst : ℕ → ℕ) (offset : ℕ) (node : LpmNode P)
    → Finds (lpm_lookup_below dst offset node) (path_below dst offset node)
unfolding lpm_lookup_below path_below
lpm_lookup_below-Finds dst offset (leaf head) = refl
lpm_lookup_below-Finds dst offset (inner head nodes) =
    Finds-node dst (offset + 8) (nodes (lpm_index dst offset 8))
      (lpm_lookup_below-Finds dst (offset + 8) (nodes (lpm_index dst offset 8)))

first_entry-Finds :
    {P : Type 0} (found : Option (List P)) (path head : List P)
    → Finds found path
    → first_entry (elim found [ some h ↦ h | none ↦ head ]) ≡ first_entry (path ++ head)
first_entry-Finds none path head h = rw h
first_entry-Finds (some f) path head h = h.0 ∙ sym (first_entry-append path head h.1).0

first_entry-node :
    {P : Type 0} (dst : ℕ → ℕ) (node : LpmNode P)
    → Finds (lpm_lookup_below dst 16 node) (path_below dst 16 node)
    → first_entry (
        if has_next node
        then elim (lpm_lookup_below dst 16 node) [ some h ↦ h | none ↦ head_of node ]
        else head_of node)
      ≡ first_entry (path_below dst 16 node ++ head_of node)
unfolding path_below
first_entry-node dst (leaf head) h = refl
first_entry-node dst (inner head nodes) h = first_entry-Finds _ _ head h

-- lpm_lookup returns the first entry of the deepest node on the way that holds any.
pub lpm_lookup-path_entries :
    {P : Type 0} (dst : ℕ → ℕ) (table : LpmTable P)
    → lpm_lookup dst table ≡ first_entry (path_entries dst table)
unfolding lpm_lookup path_entries
lpm_lookup-path_entries dst table =
    let node = table.node (lpm_index dst 0 16) in
    first_entry-node dst node (lpm_lookup_below-Finds dst 16 node)
