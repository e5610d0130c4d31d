-- ===== src/Hash/Examples.antt =====
-- The hash table of src/hash.c on the addresses 10.0.0.1 and 10.0.0.2, with the callbacks for IPv4.
use ixmap.Base.{ℕ, ◌≡◌, refl, ◌==◌, if◌then◌else◌, none, some}
use ixmap.Neigh.Keys.{DstAddr, key_ops_v4}
use ixmap.Hash.{HashTable, hash_init, hash_add, hash_lookup}
use ixmap.Hash.Laws.{IsPlaced, hash_init_empty, hash_add-lookup}

abbrev first : DstAddr
first = record { w0 = 0x0100_000a; w1 = 0; w2 = 0; w3 = 0 }

abbrev empty : HashTable DstAddr ℕ
empty = hash_init

empty-IsPlaced : IsPlaced key_ops_v4 empty
empty-IsPlaced = (hash_init_empty {V = ℕ} key_ops_v4).0

empty-lookup : hash_lookup key_ops_v4 empty first ≡ none
empty-lookup = (hash_init_empty {V = ℕ} key_ops_v4).1 first

-- The table after an insertion.
abbrev one_entry : HashTable DstAddr ℕ
one_entry = elim (hash_add key_ops_v4 empty first 7) [ none ↦ empty | some t ↦ t ]

one_entry-IsPlaced : IsPlaced key_ops_v4 one_entry
one_entry-IsPlaced =
    let (t', added, placed, reads) =
      hash_add-lookup key_ops_v4 empty first 7 empty-IsPlaced empty-lookup in
    rw (one_entry, added) placed

one_entry-lookup : hash_lookup key_ops_v4 one_entry first ≡ some (record { key = first; value = 7 })
one_entry-lookup =
    let (t', added, placed, reads) =
      hash_add-lookup key_ops_v4 empty first 7 empty-IsPlaced empty-lookup in
    rw (one_entry, added, reads first, key_ops_v4.compare_refl first) refl

hash_add-lookup_example :
    (t' : HashTable DstAddr ℕ) × (hash_add key_ops_v4 hash_init first 7 ≡ some t')
    × IsPlaced key_ops_v4 t'
    × ((q : DstAddr)
        → hash_lookup key_ops_v4 t' q ≡ (
            if key_ops_v4.hash_key_compare q first == 0
            then some (record { key = first; value = 7 })
            else hash_lookup key_ops_v4 empty q))
hash_add-lookup_example = hash_add-lookup key_ops_v4 empty first 7 empty-IsPlaced empty-lookup
