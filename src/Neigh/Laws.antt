-- ===== src/Neigh/Laws.antt =====
-- The neighbour table as a map from addresses, and what becomes of every block.
use ixmap.Base.{
  ℕ, ◌≡◌, refl, inl, inr, [], ◌∷◌, List, true, false, Option, none, some, arith, ◌==◌,
  if◌then◌else◌, Option-cases, Bool, Bool-cases, ◌&&◌, ◌<◌, ◌^◌, sym, ap, ◌∙◌,
}
use ixmap.Hash.{KeyOps, HashEntry, HashTable, find_entry, hash_lookup, hash_bit}
use ixmap.Hash.Laws.{IsPlaced, hash_init_empty, hash_add-lookup, hash_delete-lookup}
use ixmap.Neigh.Keys.{
  DstAddr, neigh_key_generate_v4, neigh_key_compare_v4, neigh_key_compare_v6, compare_v4_iff,
  compare_v6_iff, generate_v4_congr, key_ops_v4, key_ops_v6,
}
use ixmap.Neigh.{
  Family, inet, inet6, other, NeighEntry, NeighTable, Fresh, neigh_alloc, copy_addr, neigh_add,
  neigh_entry_delete, neigh_delete, neigh_lookup,
}

-- The entries stand in the buckets of their keys, each key once.
abbrev pub IsValid : NeighTable → Type 0
IsValid neigh = IsPlaced neigh.ops neigh.table

-- The blocks that a call was given.
abbrev pub blocks : Option Fresh → List ℕ
blocks none = []
blocks (some b) = b.block ∷ []

-- Either an empty valid table and nothing freed, or no table and the block freed.
abbrev pub Allocated : ℕ → Option NeighTable × List ℕ → Type 0
Allocated b (none, freed) = freed ≡ b ∷ []
Allocated b (some neigh, freed) =
    IsValid neigh × ((q : DstAddr) → neigh_lookup neigh q ≡ none) × (freed ≡ [])

-- neigh_alloc with memory gives, for the two families, a valid table in which nothing is found,
-- and for any other family no table and the block freed; without memory it gives nothing.
neigh_alloc_empty : (b : ℕ) (family : Family) → Allocated b (neigh_alloc (some b) family)
unfolding neigh_alloc neigh_lookup
neigh_alloc_empty b inet =
    let (placed, empty) = hash_init_empty {V = NeighEntry} key_ops_v4 in
    (placed, λ q. rw (empty q, neigh_lookup), refl)
neigh_alloc_empty b inet6 =
    let (placed, empty) = hash_init_empty {V = NeighEntry} key_ops_v6 in
    (placed, λ q. rw (empty q, neigh_lookup), refl)
neigh_alloc_empty b (other f) = refl

module _ (neigh : NeighTable) (valid : IsValid neigh) where
  -- neigh_add with memory, for a known family and an address that is not in the table, returns 0
  -- and frees nothing: the table stays valid, addresses equal to the stored key lead to the new
  -- MAC address, every other address to what it led to.
  pub neigh_add-lookup :
      (family : Family) (dst_addr key : DstAddr) (mac_addr : List ℕ) (b : Fresh)
      → copy_addr family dst_addr b.words ≡ some key
      → neigh_lookup neigh key ≡ none
      → let out = neigh_add neigh family dst_addr mac_addr (some b) in
        (out.done ≡ true)
        × (out.freed ≡ [])
        × IsValid out.neigh
        × ((q : DstAddr)
            → neigh_lookup out.neigh q ≡ (
                if neigh.ops.hash_key_compare q key == 0
                then some (record { block = b.block; dst_mac = mac_addr })
                else neigh_lookup neigh q))
  unfolding neigh_add neigh_lookup
  neigh_add-lookup family dst_addr key mac_addr b copied absent =
      let none_there : hash_lookup neigh.ops neigh.table key ≡ none = ground arith in
      let (t', added, placed, reads) =
        hash_add-lookup neigh.ops neigh.table key (record { block = b.block; dst_mac = mac_addr })
          valid none_there in
      let ran : neigh_add neigh family dst_addr mac_addr (some b)
          ≡ record { done = true; neigh = record neigh { table = t' }; freed = [] } =
        ground arith in
      rw ran (refl, refl, placed, λ q. ground (arith, reads q))

  -- neigh_add that returns -1 leaves the table as it was and frees the block that it was given.
  neigh_add_failed :
      (family : Family) (dst_addr : DstAddr) (mac_addr : List ℕ) (b : Option Fresh)
      → (neigh_add neigh family dst_addr mac_addr b).done ≡ false
      → ((neigh_add neigh family dst_addr mac_addr b).neigh ≡ neigh)
        × ((neigh_add neigh family dst_addr mac_addr b).freed ≡ blocks b)
  unfolding neigh_add
  neigh_add_failed family dst_addr mac_addr b h = ground arith

  -- neigh_delete of an address in the table returns 0 and frees the block of its entry; the table
  -- stays valid, the address leads nowhere and every other address to what it led to.
  neigh_delete-lookup :
      (family : Family) (dst_addr : DstAddr) (entry : NeighEntry)
      → neigh_lookup neigh dst_addr ≡ some entry
      → let out = neigh_delete neigh family dst_addr in
        (out.done ≡ true)
        × (out.freed ≡ entry.block ∷ [])
        × IsValid out.neigh
        × ((q : DstAddr)
            → neigh_lookup out.neigh q
              ≡ (if neigh.ops.hash_key_compare q dst_addr == 0 then none else neigh_lookup neigh q))
  unfolding neigh_delete neigh_lookup neigh_entry_delete
  neigh_delete-lookup family dst_addr entry found =
      elim (Option-cases (hash_lookup neigh.ops neigh.table dst_addr)) [
        | inl e ↦ absurd (ground arith)
        | inr (target, e) ↦
            let (t', deleted, placed, reads) =
              hash_delete-lookup neigh.ops neigh.table dst_addr target valid e in
            let ran : neigh_delete neigh family dst_addr ≡ record {
              done = true;
              neigh = record neigh { table = t' };
              freed = target.value.block ∷ [];
            } =
              ground arith in
            rw ran (refl, ground arith, placed, λ q. ground (arith, reads q))
      ]

-- The callbacks that neigh_alloc stores for a family that it knows.
abbrev pub ops_of : Family → KeyOps DstAddr
ops_of inet = key_ops_v4
ops_of inet6 = key_ops_v6
ops_of (other f) = key_ops_v4

abbrev pub IsKnown : Family → Type 0
IsKnown inet = Unit
IsKnown inet6 = Unit
IsKnown (other f) = ⊥

-- The words are those of `uint32_t`.
abbrev pub IsWords : DstAddr → Type 0
IsWords a = (a.w0 < 2 ^ 32) × (a.w1 < 2 ^ 32) × (a.w2 < 2 ^ 32) × (a.w3 < 2 ^ 32)

-- Whether two addresses are one address of the family: the first word of IPv4, all of IPv6.
abbrev pub same_addr : Family → DstAddr → DstAddr → Bool
same_addr inet a b = a.w0 == b.w0
same_addr inet6 a b = (a.w0 == b.w0 && a.w1 == b.w1) && (a.w2 == b.w2 && a.w3 == b.w3)
same_addr (other f) a b = false

compare_v4-same_addr : (a b : DstAddr) → (neigh_key_compare_v4 a b == 0) ≡ same_addr inet a b
compare_v4-same_addr a b = ground (arith, compare_v4_iff a b)

compare_v6-same_addr :
    (a b : DstAddr) → IsWords a → IsWords b → (neigh_key_compare_v6 a b == 0) ≡ same_addr inet6 a b
compare_v6-same_addr a b (a₀, a₁, a₂, a₃) (b₀, b₁, b₂, b₃) =
    elim (Bool-cases (neigh_key_compare_v6 a b == 0)) [
      | inl e ↦
          let (low, high) = (compare_v6_iff a b).0 (ground arith) in
          let (e₀, e₁) : (a.w0 ≡ b.w0) × (a.w1 ≡ b.w1) = (omega arith, omega arith) in
          let (e₂, e₃) : (a.w2 ≡ b.w2) × (a.w3 ≡ b.w3) = (omega arith, omega arith) in
          e ∙ ground arith
      | inr e ↦ elim (Bool-cases (same_addr inet6 a b)) [
        | inr different ↦ e ∙ sym different
        | inl same ↦
            let e₀ : a.w0 ≡ b.w0 = ground arith in
            let e₁ : a.w1 ≡ b.w1 = ground arith in
            let e₂ : a.w2 ≡ b.w2 = ground arith in
            let e₃ : a.w3 ≡ b.w3 = ground arith in
            let equal = (compare_v6_iff a b).1 (omega arith) (omega arith) in absurd (ground arith)
      ]
    ]

find_entry_v4 :
    (a b : DstAddr) (chain : List (HashEntry DstAddr NeighEntry))
    → a.w0 ≡ b.w0
    → find_entry key_ops_v4 a chain ≡ find_entry key_ops_v4 b chain
unfolding find_entry neigh_key_compare_v4
find_entry_v4 a b [] e = refl
find_entry_v4 a b (entry ∷ chain) e = rw (e, find_entry_v4 a b chain e) refl

-- Only the first word counts in an IPv4 table.
lookup_v4 :
    (table : HashTable DstAddr NeighEntry) (a b : DstAddr)
    → a.w0 ≡ b.w0
    → neigh_lookup (record { ops = key_ops_v4; table = table }) a
      ≡ neigh_lookup (record { ops = key_ops_v4; table = table }) b
unfolding neigh_lookup hash_lookup neigh_key_generate_v4
lookup_v4 table a b e =
    let bucket : neigh_key_generate_v4 a hash_bit ≡ neigh_key_generate_v4 b hash_bit =
      generate_v4_congr a b ((compare_v4_iff a b).1 e) in
    ap
      (λ (o : Option (HashEntry DstAddr NeighEntry)). elim o [
        | none ↦ none
        | some entry ↦ some entry.value
      ])
      (find_entry_v4 a b (table.head (neigh_key_generate_v4 a hash_bit)) e
        ∙ ap (λ i. find_entry key_ops_v4 b (table.head i)) bucket)

-- neigh_add with memory, on the table of a known family, for an address that leads nowhere: it
-- returns 0 and frees nothing, and the table stays valid. The address (the first word of an IPv4
-- address, all four of an IPv6 one) leads to the new block and MAC address, every other one to what it
-- led to.
pub neigh_add-neigh_lookup :
    (family : Family) (table : HashTable DstAddr NeighEntry) (dst_addr q : DstAddr)
    (mac_addr : List ℕ) (b : Fresh)
    → IsKnown family
    → IsValid (record { ops = ops_of family; table = table })
    → IsWords dst_addr
    → IsWords q
    → neigh_lookup (record { ops = ops_of family; table = table }) dst_addr ≡ none
    → let neigh : NeighTable = record { ops = ops_of family; table = table } in
      let out = neigh_add neigh family dst_addr mac_addr (some b) in
      (out.done ≡ true)
      × (out.freed ≡ [])
      × IsValid out.neigh
      × (neigh_lookup out.neigh q ≡ (
          if same_addr family q dst_addr
          then some (record { block = b.block; dst_mac = mac_addr })
          else neigh_lookup neigh q))
unfolding copy_addr
neigh_add-neigh_lookup inet table dst_addr q mac_addr b known valid words words_q absent =
    let key : DstAddr = record b.words { w0 = dst_addr.w0 } in
    let neigh : NeighTable = record { ops = key_ops_v4; table = table } in
    let (done, freed, placed, reads) =
      neigh_add-lookup neigh valid inet dst_addr key mac_addr b refl
        (lookup_v4 table key dst_addr refl ∙ absent) in
    (done, freed, placed, rw (← compare_v4-same_addr q key) (reads q))
neigh_add-neigh_lookup inet6 table dst_addr q mac_addr b known valid words words_q absent =
    let neigh : NeighTable = record { ops = key_ops_v6; table = table } in
    let (done, freed, placed, reads) =
      neigh_add-lookup neigh valid inet6 dst_addr dst_addr mac_addr b refl absent in
    (done, freed, placed, rw (← compare_v6-same_addr q dst_addr words_q words) (reads q))
neigh_add-neigh_lookup (other f) table dst_addr q mac_addr b known valid words words_q absent =
    absurd known
