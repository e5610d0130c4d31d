-- ===== src/Lpm/Order.antt =====
-- The order of the trie: each level holds the lengths of its range, in descending order, so that
-- the entries that a destination meets come longest first.
use ixmap.Base.{
  ℕ, ◌+◌, ◌<◌, ◌≡◌, refl, List, [], ◌∷◌, ◌++◌, Option, none, some, arith, All, All-mono, All-append,
}
use ixmap.Lpm.{LpmOps, LpmNode, leaf, inner, LpmTable, head_of, first_entry, lpm_init, lpm_index}
use ixmap.Lpm.Lookup.{lpm_lookup}
use ixmap.Lpm.Entries.{LpmLaws, AtMost, Descending}
use ixmap.Lpm.Walk.{path_below, path_entries, lpm_lookup-path_entries}

module _ {P S : Type 0} {ops : LpmOps P S} (laws : LpmLaws ops) where
  open laws use {len_of}

  -- What the list of a node of the level from `offset` to `offset + 8` bits is like.
  abbrev pub Fits : ℕ → List P → Type 0
  Fits offset head =
      Descending laws head × All (λ e. offset < len_of e) head × AtMost laws (offset + 8) head

  -- The level below the node, and all that is below it, is in order.
  abbrev pub OrderedBelow : ℕ → LpmNode P → Type 0
  OrderedBelow offset (leaf head) = Unit
  OrderedBelow offset (inner head nodes) =
      (i : ℕ) → Fits offset (head_of (nodes i)) × OrderedBelow (offset + 8) (nodes i)

  -- The nodes of one level: `Q` holds of their lists, and what is below them is in order.
  abbrev pub Level : (List P → Type 0) → ℕ → (ℕ → LpmNode P) → Type 0
  Level Q offset nodes = (i : ℕ) → Q (head_of (nodes i)) × OrderedBelow offset (nodes i)

  abbrev pub FitsTop : List P → Type 0
  FitsTop head = Descending laws head × AtMost laws 16 head

  abbrev pub IsOrdered : LpmTable P → Type 0
  IsOrdered table = Level FitsTop 16 table.node

  Descending-append :
      (n : ℕ) (xs ys : List P)
      → Descending laws xs
      → All (λ e. n < len_of e) xs
      → Descending laws ys
      → AtMost laws n ys
      → Descending laws (xs ++ ys)
  Descending-append n [] ys dx a dy b = dy
  Descending-append n (x ∷ xs) ys dx a dy b = (
    All-append _ xs ys dx.0 (All-mono _ _ ys (λ e h. omega arith) b),
    Descending-append n xs ys dx.1 a.1 dy b,
  )

  pub path_below-Descending :
      (dst : ℕ → ℕ) (offset : ℕ) (node : LpmNode P)
      → OrderedBelow offset node
      → Descending laws (path_below dst offset node)
        × All (λ e. offset < len_of e) (path_below dst offset node)
  unfolding path_below
  path_below-Descending dst offset (leaf head) o = (tt, tt)
  path_below-Descending dst offset (inner head nodes) o =
      let index = lpm_index dst offset 8 in
      let (fits, below) = o index in
      let (d, a) = path_below-Descending dst (offset + 8) (nodes index) below in
      (
        Descending-append (offset + 8) _ (head_of (nodes index)) d a fits.0 fits.2,
        All-append _ _ (head_of (nodes index)) (All-mono _ _ _ (λ e h. omega arith) a) fits.1,
      )

  -- In an ordered table the entries that a destination meets come in descending order of length.
  path_entries-Descending :
      (dst : ℕ → ℕ) (table : LpmTable P)
      → IsOrdered table
      → Descending laws (path_entries dst table)
  unfolding path_entries
  path_entries-Descending dst table o =
      let index = lpm_index dst 0 16 in
      let (fits, below) = o index in
      let (d, a) = path_below-Descending dst 16 (table.node index) below in
      Descending-append 16 _ (head_of (table.node index)) d a fits.0 fits.1

  -- What lpm_lookup answers: nothing only if the destination meets no entry, else one of the
  -- entries met, of which none is longer.
  abbrev pub Longest : Option P → List P → Type 0
  Longest none path = path ≡ []
  Longest (some e) path = (rest : List P) × (path ≡ e ∷ rest) × AtMost laws (len_of e) path

  Longest-of_Descending : (path : List P) → Descending laws path → Longest (first_entry path) path
  Longest-of_Descending [] d = refl
  Longest-of_Descending (e ∷ rest) d = (rest, refl, (omega arith, d.0))

  -- lpm_lookup on an ordered table answers with an entry that the destination meets and that has
  -- the greatest prefix length of these, and with nothing exactly if it meets none.
  pub lpm_lookup-Longest :
      (dst : ℕ → ℕ) (table : LpmTable P)
      → IsOrdered table
      → Longest (lpm_lookup dst table) (path_entries dst table)
  lpm_lookup-Longest dst table o =
      rw (lpm_lookup-path_entries dst table)
        (Longest-of_Descending _ (path_entries-Descending dst table o))

  -- lpm_init gives an ordered table in which no destination meets an entry.
  pub lpm_init-IsOrdered :
      IsOrdered lpm_init × ((dst : ℕ → ℕ) → path_entries {P = P} dst lpm_init ≡ [])
  unfolding lpm_init path_entries path_below
  lpm_init-IsOrdered = (λ i. ((tt, tt), tt), λ dst. refl)
