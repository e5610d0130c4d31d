-- ===== src/Fib.antt =====
-- src/fib.c and src/fib.h: the forwarding table, the trie at routes. A `fib_entry` is its address
-- and the fields that are set before it enters the trie; `refcount` and the frees stand apart, as
-- what the callbacks change. The trie holds entries as values: what a block that was freed while an
-- entry of the trie still points to it becomes when it is used again is not modelled.
pub mod Laws
mod Examples
use ixmap.Base.{
  ℕ, ◌+◌, ◌-◌, ◌%◌, ◌^◌, List, [], ◌∷◌, Bool, true, false, Option, none, some, ◌==◌, ltb,
  if◌then◌else◌, update,
}
use ixmap.Lpm.{LpmOps, LpmTable, LpmState, mem_next, lpm_init}
use ixmap.Lpm.Add.{lpm_add}
use ixmap.Lpm.Delete.{lpm_delete, lpm_delete_all}
use ixmap.Lpm.Lookup.{lpm_lookup}
use ixmap.Neigh.{Family, inet, inet6, other}

pub data FibType : Type 0 where
  forward link local : FibType

-- An address as its 32-bit words in host order (`ntohl` of what stands in memory).
abbrev pub Words : Type 0
Words = ℕ → ℕ

-- `port_index` is `none` where the source has -1.
pub record FibEntry : Type 0 where
  pub block : ℕ
  pub prefix : Words
  pub prefix_len : ℕ
  pub nexthop : Words
  pub port_index : Option ℕ
  pub type : FibType
  pub id : ℕ

-- `refcount` of the entry at each address, and the addresses freed, the last first.
pub record Refs : Type 0 where
  pub refcount : ℕ → ℕ
  pub freed : List ℕ

unfoldable pub fib_entry_identify : FibEntry → ℕ → ℕ → ℕ
fib_entry_identify entry id prefix_len =
    if entry.id == id then (if entry.prefix_len == prefix_len then 0 else 1) else 1

pub fib_entry_compare : FibEntry → ℕ → ℕ
fib_entry_compare entry prefix_len = if ltb prefix_len entry.prefix_len then 1 else 0

pub fib_entry_pull : FibEntry → Refs → Refs
fib_entry_pull entry refs = record refs {
  refcount = update refs.refcount entry.block ((refs.refcount entry.block + 1) % 2 ^ 32);
}

pub fib_entry_put : FibEntry → Refs → Refs
fib_entry_put entry refs =
    let count = (refs.refcount entry.block + 2 ^ 32 - 1) % 2 ^ 32 in
    record {
      refcount = update refs.refcount entry.block count;
      freed = if count == 0 then entry.block ∷ refs.freed else refs.freed;
    }

-- The callbacks that `fib_alloc` stores.
abbrev pub fib_ops : LpmOps FibEntry Refs
fib_ops = record {
  entry_identify = fib_entry_identify;
  entry_compare = fib_entry_compare;
  entry_pull = fib_entry_pull;
  entry_put = fib_entry_put;
}

abbrev pub Fib : Type 0
Fib = LpmTable FibEntry

abbrev pub FibState : Type 0
FibState = LpmState Refs

-- `none`: no memory for the table.
pub fib_alloc : FibState → Option Fib × FibState
fib_alloc st = (
  if (mem_next st.allocs).0 then some lpm_init else none,
  record st { allocs = (mem_next st.allocs).1 },
)

-- The state after the entries are put; `self` is the table's own block, freed last.
unfoldable pub fib_release : Fib → ℕ → Refs → Refs
fib_release fib self refs =
    let (table, refs') = lpm_delete_all fib_ops fib refs in
    record refs' { freed = self ∷ refs'.freed }

abbrev pub free_entry : ℕ → FibState → FibState
free_entry block st =
    let refs = st.store in record st { store = record refs { freed = block ∷ refs.freed } }

-- Whether `memcpy` into the entry is done: the families that the source knows.
abbrev pub known_family : Family → Bool
known_family inet = true
known_family inet6 = true
known_family (other f) = false

-- `entry` has the fields as they are filled in, its block being what `ixmap_mem_alloc` gives when
-- it succeeds. The outer `none` means that lpm_add ran out of fuel.
pub fib_route_update : Fib → Family → FibEntry → FibState → Option (Bool × Fib × FibState)
fib_route_update fib family entry st =
    let st₁ : FibState = record st { allocs = (mem_next st.allocs).1 } in
    let refs : Refs = st.store in
    let st₂ : FibState = record st₁ {
      store = record refs { refcount = update refs.refcount entry.block 0 };
    } in
    let added = lpm_add fib_ops entry.prefix entry.prefix_len entry.id entry fib st₂ in
    if (mem_next st.allocs).0
    then if known_family family
      then elim added [
        | none ↦ none
        | some (done, fib', st') ↦
            some (done, fib', if done then st' else free_entry entry.block st')
      ]
      else some (false, fib, free_entry entry.block st₁)
    else some (false, fib, st₁)

pub fib_route_delete : Fib → Family → Words → ℕ → ℕ → Refs → Bool × Fib × Refs
fib_route_delete fib family prefix prefix_len id refs =
    lpm_delete fib_ops prefix prefix_len id fib refs

unfoldable pub fib_lookup : Fib → Words → Option FibEntry
fib_lookup fib destination = lpm_lookup destination fib
