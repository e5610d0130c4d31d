-- ===== src/Neigh.antt =====
-- src/neigh.c and src/neigh.h: the neighbour table, the hash table at destination addresses.
-- An address is the `uint32_t dst_addr[4]` of an entry, as the host (x86, little endian) loads its
-- words. A block from `ixmap_mem_alloc` is its address and the words that stood in it; `none` is
-- its NULL. What is handed to `ixmap_mem_free` is returned as a list of blocks.
pub mod Keys
pub mod Laws
mod Examples
use ixmap.Base.{ℕ, List, [], ◌∷◌, Bool, true, false, Option, none, some, ◌++◌, map}
use ixmap.Hash.{
  KeyOps, HashEntry, HashTable, hash_init, hash_add, hash_delete, hash_delete_all, hash_lookup,
}
use ixmap.Neigh.Keys.{DstAddr, key_ops_v4, key_ops_v6}

-- The address families that the source tells apart.
pub data Family : Type 0 where
  inet inet6 : Family
  other : ℕ → Family

-- `struct neigh_entry` beside its hash entry: the block it stands in and `dst_mac`.
pub record NeighEntry : Type 0 where
  pub block : ℕ
  pub dst_mac : List ℕ

-- `struct neigh_table`: the callbacks that `neigh_alloc` stores, and the hash table.
pub record NeighTable : Type 0 where
  pub ops : KeyOps DstAddr
  pub table : HashTable DstAddr NeighEntry

-- The block of `ixmap_mem_alloc`, with the address words that stand in it before they are written.
pub record Fresh : Type 0 where
  pub block : ℕ
  pub words : DstAddr

-- A new table and the freed blocks.
pub neigh_alloc : Option ℕ → Family → Option NeighTable × List ℕ
neigh_alloc none family = (none, [])
neigh_alloc (some b) inet = (some (record { ops = key_ops_v4; table = hash_init }), [])
neigh_alloc (some b) inet6 = (some (record { ops = key_ops_v6; table = hash_init }), [])
neigh_alloc (some b) (other f) = (none, b ∷ [])

-- `memcpy(neigh_entry->dst_addr, dst_addr, 4)` or 16; `none` for a family that is not known.
pub copy_addr : Family → DstAddr → DstAddr → Option DstAddr
copy_addr inet addr old = some (record old { w0 = addr.w0 })
copy_addr inet6 addr old = some addr
copy_addr (other f) addr old = none

-- What a call leaves: `done` is the return value 0 (not -1).
pub record Outcome : Type 0 where
  pub done : Bool
  pub neigh : NeighTable
  pub freed : List ℕ

abbrev add_copied : NeighTable → Fresh → List ℕ → Option DstAddr → Outcome
add_copied neigh b mac_addr none = record { done = false; neigh = neigh; freed = b.block ∷ [] }
add_copied neigh b mac_addr (some key) =
    elim (hash_add neigh.ops neigh.table key (record { block = b.block; dst_mac = mac_addr })) [
      | none ↦ record { done = false; neigh = neigh; freed = b.block ∷ [] }
      | some table ↦ record { done = true; neigh = record neigh { table = table }; freed = [] }
    ]

pub neigh_add : NeighTable → Family → DstAddr → List ℕ → Option Fresh → Outcome
neigh_add neigh family dst_addr mac_addr none = record { done = false; neigh = neigh; freed = [] }
neigh_add neigh family dst_addr mac_addr (some b) =
    add_copied neigh b mac_addr (copy_addr family dst_addr b.words)

-- `neigh_entry_delete` frees the block of the entry.
pub neigh_entry_delete : HashEntry DstAddr NeighEntry → ℕ
neigh_entry_delete entry = entry.value.block

pub neigh_delete : NeighTable → Family → DstAddr → Outcome
neigh_delete neigh family dst_addr = elim (hash_delete neigh.ops neigh.table dst_addr) [
  | none ↦ record { done = false; neigh = neigh; freed = [] }
  | some (target, table) ↦ record {
    done = true;
    neigh = record neigh { table = table };
    freed = neigh_entry_delete target ∷ [];
  }
]

-- The freed blocks in order, the table's own (`self`) last.
unfoldable pub neigh_release : NeighTable → ℕ → List ℕ
neigh_release neigh self = map neigh_entry_delete (hash_delete_all neigh.table).0 ++ (self ∷ [])

unfoldable pub neigh_lookup : NeighTable → DstAddr → Option NeighEntry
neigh_lookup neigh dst_addr = elim (hash_lookup neigh.ops neigh.table dst_addr) [
  | none ↦ none
  | some entry ↦ some entry.value
]
