-- ===== src/Lpm/Examples.antt =====
-- The trie of src/lpm.c with the callbacks of the forwarding table and the route 10.1.0.0/16.
use ixmap.Lpm.Lookup.{lpm_traverse, lpm_traverse_below, dump_range, lpm_lookup}
use ixmap.Base.{arith, ◌≡◌, refl, [], ◌∷◌, Bool, true, false, none, some, ◌==◌, if◌then◌else◌}
use ixmap.Lpm.{lpm_init, first_entry, lpm_entry_insert, lpm_entry_delete, lpm_index}
use ixmap.Lpm.Add.{insert_range, lpm_add_top, lpm_add}
use ixmap.Lpm.Delete.{lpm_delete, delete_range}
use ixmap.Lpm.Entries.{insert_entry, erase_entry}
use ixmap.Lpm.Walk.{path_entries, lpm_lookup-path_entries}
use ixmap.Lpm.Order.{IsOrdered, Longest, lpm_lookup-Longest, lpm_init-IsOrdered}
use ixmap.Lpm.Preserve.{lpm_add-IsOrdered}
use ixmap.Lpm.Effect.{meets, lpm_add-path_entries}
use ixmap.Lpm.Rollback.{lpm_add_failed}
use ixmap.Lpm.Remove.{lpm_delete-path_entries}
use ixmap.Fib.{forward, Words, FibEntry, Refs, Fib, FibState, fib_ops, fib_entry_identify}
use ixmap.Fib.Laws.{fib_laws}

abbrev prefix : Words
prefix i = if i == 0 then 0x0a01_0000 else 0

-- 10.1.2.3 and 10.2.0.1.
abbrev inside : Words
inside i = if i == 0 then 0x0a01_0203 else 0

abbrev route : FibEntry
route = record {
  block = 64;
  prefix = prefix;
  prefix_len = 16;
  nexthop = λ i. 0;
  port_index = some 1;
  type = forward;
  id = 5;
}

abbrev refs : Refs
refs = record { refcount = λ b. 0; freed = [] }

abbrev ready : FibState
ready = record { store = refs; allocs = true ∷ true ∷ [] }

abbrev empty : Fib
empty = lpm_init

empty-IsOrdered : IsOrdered fib_laws empty
empty-IsOrdered = (lpm_init-IsOrdered {P = FibEntry} fib_laws).0

abbrev added : Bool × Fib × FibState
added = elim (lpm_add fib_ops prefix 16 5 route empty ready) [
  | none ↦ (false, empty, ready)
  | some r ↦ r
]

added-eq : lpm_add fib_ops prefix 16 5 route empty ready ≡ some added
added-eq =
    let (r, run, ordered) = lpm_add-IsOrdered fib_laws prefix route 5 empty ready empty-IsOrdered in
    rw (added, run) refl

added-done : added.0 ≡ true
unfolding lpm_add lpm_add_top insert_range lpm_entry_insert lpm_init
added-done = refl

added-IsOrdered : IsOrdered fib_laws added.1
added-IsOrdered =
    let (r, run, ordered) = lpm_add-IsOrdered fib_laws prefix route 5 empty ready empty-IsOrdered in
    rw (added, run) ordered

deleted : (lpm_delete fib_ops prefix 16 5 added.1 refs).0 ≡ true
unfolding lpm_delete delete_range lpm_entry_delete lpm_add lpm_add_top insert_range lpm_entry_insert
    fib_entry_identify lpm_init lpm_index
deleted = refl

lpm_lookup-Longest_example :
    Longest fib_laws (lpm_lookup inside added.1) (path_entries inside added.1)
lpm_lookup-Longest_example = lpm_lookup-Longest fib_laws inside added.1 added-IsOrdered

lpm_lookup-path_entries_example :
    lpm_lookup inside added.1 ≡ first_entry (path_entries inside added.1)
lpm_lookup-path_entries_example = lpm_lookup-path_entries inside added.1

lpm_add-path_entries_example : path_entries inside added.1 ≡ (
    if meets prefix 16 inside
    then insert_entry fib_laws route (path_entries inside empty)
    else path_entries inside empty)
lpm_add-path_entries_example =
    lpm_add-path_entries fib_laws prefix route 5 empty ready added empty-IsOrdered added-eq
      added-done inside

lpm_add-IsOrdered_example :
    (r : Bool × Fib × FibState) × (lpm_add fib_ops prefix 16 5 route empty ready ≡ some r)
    × IsOrdered fib_laws r.1
lpm_add-IsOrdered_example = lpm_add-IsOrdered fib_laws prefix route 5 empty ready empty-IsOrdered

lpm_delete-path_entries_example :
    path_entries inside (lpm_delete fib_ops prefix 16 5 added.1 refs).1 ≡ (
      if meets prefix 16 inside
      then erase_entry fib_laws (path_entries inside added.1) 5 16
      else path_entries inside added.1)
lpm_delete-path_entries_example =
    lpm_delete-path_entries fib_laws prefix 5 16 added.1 refs added-IsOrdered deleted inside

-- The route 10.0.0.0/15, whose second node gets no entry.
abbrev wide_route : FibEntry
wide_route = record route { prefix_len = 15 }

abbrev short_of_memory : FibState
short_of_memory = record { store = refs; allocs = true ∷ [] }

abbrev refused : Bool × Fib × FibState
refused = elim (lpm_add fib_ops prefix 15 5 wide_route empty short_of_memory) [
  | none ↦ (true, empty, ready)
  | some r ↦ r
]

refused-eq : lpm_add fib_ops prefix 15 5 wide_route empty short_of_memory ≡ some refused
refused-eq =
    let (r, run, ordered) =
      lpm_add-IsOrdered fib_laws prefix wide_route 5 empty short_of_memory empty-IsOrdered in
    rw (refused, run) refl

refused-done : refused.0 ≡ false
unfolding lpm_add lpm_add_top insert_range lpm_entry_insert lpm_init
refused-done = refl

lpm_add_failed_example : refused.1.node 0x0a00 ≡ empty.node 0x0a00
lpm_add_failed_example =
    lpm_add_failed fib_laws wide_route prefix empty short_of_memory refused (omega arith)
      empty-IsOrdered refused-eq refused-done 0x0a00

traverse_test : lpm_traverse prefix 16 added.1 ≡ (route ∷ []) ∷ []
unfolding lpm_traverse lpm_traverse_below dump_range lpm_add lpm_add_top insert_range
    lpm_entry_insert lpm_init lpm_index
traverse_test = refl
