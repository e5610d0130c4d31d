-- ===== src/Neigh/Examples.antt =====
-- The neighbour table of src/neigh.c with one IPv4 neighbour, 10.0.0.1.
use ixmap.Base.{ℕ, ◌≡◌, arith, refl, List, [], ◌∷◌, true, false, none, some}
use ixmap.Hash.{hash_init}
use ixmap.Hash.Laws.{hash_init_empty}
use ixmap.Neigh.Keys.{DstAddr, key_ops_v4}
use ixmap.Neigh.{
  inet, other, NeighEntry, NeighTable, Fresh, Outcome, copy_addr, neigh_add, neigh_lookup,
}
use ixmap.Neigh.Laws.{IsValid, neigh_add-lookup, neigh_add-neigh_lookup}

abbrev gateway : DstAddr
gateway = record { w0 = 0x0100_000a; w1 = 0; w2 = 0; w3 = 0 }

abbrev beyond : DstAddr
beyond = record { w0 = 0x8002; w1 = 0; w2 = 0; w3 = 1 }

abbrev mac : List ℕ
mac = 2 ∷ 0 ∷ 0 ∷ 0 ∷ 0 ∷ 1 ∷ []

abbrev fresh : Fresh
fresh = record { block = 4096; words = gateway }

abbrev none_known : NeighTable
none_known = record { ops = key_ops_v4; table = hash_init }

none_known-IsValid : IsValid none_known
none_known-IsValid = (hash_init_empty {V = NeighEntry} key_ops_v4).0

none_known-lookup : neigh_lookup none_known gateway ≡ none
unfolding neigh_lookup
none_known-lookup = rw (neigh_lookup, (hash_init_empty {V = NeighEntry} key_ops_v4).1 gateway) refl

copied : copy_addr inet gateway gateway ≡ some gateway
unfolding copy_addr
copied = refl

abbrev one_known : NeighTable
one_known = let out : Outcome = neigh_add none_known inet gateway mac (some fresh) in out.neigh

one_known-IsValid : IsValid one_known
one_known-IsValid =
    (neigh_add-lookup none_known none_known-IsValid inet gateway gateway mac fresh copied
      none_known-lookup).2

one_known-lookup : neigh_lookup one_known gateway ≡ some (record { block = 4096; dst_mac = mac })
one_known-lookup =
    let (done, freed, valid, reads) =
      neigh_add-lookup none_known none_known-IsValid inet gateway gateway mac fresh copied
        none_known-lookup in
    rw (reads gateway, key_ops_v4.compare_refl gateway) refl

-- The block held another address before.
neigh_add-neigh_lookup_example :
    let out =
      neigh_add none_known inet gateway mac (some (record { block = 4096; words = beyond })) in
    (out.done ≡ true)
    × (out.freed ≡ [])
    × IsValid out.neigh
    × (neigh_lookup out.neigh gateway ≡ some (record { block = 4096; dst_mac = mac }))
neigh_add-neigh_lookup_example =
    neigh_add-neigh_lookup inet hash_init gateway gateway mac
      (record { block = 4096; words = beyond }) tt none_known-IsValid
      (omega arith, omega arith, omega arith, omega arith)
      (omega arith, omega arith, omega arith, omega arith) none_known-lookup

failed : (neigh_add none_known (other 1) gateway mac (some fresh)).done ≡ false
unfolding neigh_add copy_addr
failed = refl
