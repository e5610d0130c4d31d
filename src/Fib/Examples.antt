-- ===== src/Fib/Examples.antt =====
-- The forwarding table of src/fib.c with the route 10.1.0.0/16 to port 1.
use ixmap.Fib.{
  fib_alloc, fib_entry_pull, fib_entry_put, forward, Words, FibEntry, Refs, Fib, FibState,
  fib_entry_identify, fib_route_update, fib_route_delete, fib_lookup,
}
use ixmap.Base.{◌≡◌, refl, [], ◌∷◌, Bool, true, false, none, some, ◌==◌, if◌then◌else◌}
use ixmap.Lpm.{lpm_init, lpm_entry_insert, lpm_entry_delete, lpm_index}
use ixmap.Lpm.Add.{insert_range, lpm_add_top, lpm_add}
use ixmap.Lpm.Delete.{lpm_delete, delete_range}
use ixmap.Lpm.Entries.{erase_entry}
use ixmap.Lpm.Walk.{path_entries}
use ixmap.Lpm.Order.{IsOrdered, Longest, lpm_init-IsOrdered}
use ixmap.Lpm.Effect.{meets}
use ixmap.Neigh.{inet}
use ixmap.Fib.Laws.{
  fib_laws, better_route, fib_route_update-fib_lookup, fib_route_update-IsOrdered,
  fib_route_delete-fib_lookup,
}

abbrev prefix : Words
prefix i = if i == 0 then 0x0a01_0000 else 0

abbrev route : FibEntry
route = record {
  block = 64;
  prefix = prefix;
  prefix_len = 16;
  nexthop = λ i. 0;
  port_index = some 1;
  type = forward;
  id = 5;
}

abbrev refs : Refs
refs = record { refcount = λ b. 0; freed = [] }

abbrev ready : FibState
ready = record { store = refs; allocs = true ∷ true ∷ [] }

abbrev empty : Fib
empty = lpm_init

empty-IsOrdered : IsOrdered fib_laws empty
empty-IsOrdered = (lpm_init-IsOrdered {P = FibEntry} fib_laws).0

abbrev updated : Bool × Fib × FibState
updated = elim (fib_route_update empty inet route ready) [
  | none ↦ (false, empty, ready)
  | some r ↦ r
]

updated-eq : fib_route_update empty inet route ready ≡ some updated
updated-eq =
    let (r, run, ordered) = fib_route_update-IsOrdered empty inet route ready empty-IsOrdered in
    rw (updated, run) refl

updated-done : updated.0 ≡ true
unfolding fib_route_update lpm_add lpm_add_top insert_range lpm_entry_insert lpm_init
updated-done = refl

updated-IsOrdered : IsOrdered fib_laws updated.1
updated-IsOrdered =
    let (r, run, ordered) = fib_route_update-IsOrdered empty inet route ready empty-IsOrdered in
    rw (updated, run) ordered

deleted : (fib_route_delete updated.1 inet prefix 16 5 refs).0 ≡ true
unfolding fib_route_delete fib_route_update lpm_delete delete_range lpm_entry_delete lpm_add
    lpm_add_top insert_range lpm_entry_insert fib_entry_identify lpm_init lpm_index
deleted = refl

fib_route_update-fib_lookup_example :
    IsOrdered fib_laws updated.1
    × ((dst : Words)
        → fib_lookup updated.1 dst ≡ (
            if meets prefix 16 dst
            then better_route route (fib_lookup empty dst)
            else fib_lookup empty dst))
fib_route_update-fib_lookup_example =
    fib_route_update-fib_lookup empty inet route ready updated empty-IsOrdered updated-eq
      updated-done

fib_route_delete-fib_lookup_example :
    let fib' = (fib_route_delete updated.1 inet prefix 16 5 refs).1 in
    IsOrdered fib_laws fib'
    × ((dst : Words)
        → Longest fib_laws (fib_lookup fib' dst) (
            if meets prefix 16 dst
            then erase_entry fib_laws (path_entries dst updated.1) 5 16
            else path_entries dst updated.1))
fib_route_delete-fib_lookup_example =
    fib_route_delete-fib_lookup updated.1 inet prefix 16 5 refs updated-IsOrdered deleted

alloc_test : fib_alloc ready ≡ (some empty, record ready { allocs = true ∷ [] })
unfolding fib_alloc lpm_init
alloc_test = refl

put_test : (fib_entry_put route (fib_entry_pull route refs)).freed ≡ 64 ∷ []
unfolding fib_entry_put fib_entry_pull
put_test = refl
