-- ===== src/Fib/Laws.antt =====
-- src/fib.c: routes go in by fib_route_update and out by fib_route_delete, and fib_lookup answers
-- with the longest that covers the destination.
use ixmap.Base.{
  ℕ, ◌≡◌, refl, sym, ap, ap₂, ◌∙◌, List, [], ◌∷◌, Bool, true, false, Option, none, some,
  some-injective, arith, ◌==◌, ltb, leb, if◌then◌else◌, update, Bool-cases, Option-cases, inl, inr,
}
use ixmap.Lpm.{mem_next, first_entry}
use ixmap.Lpm.Add.{lpm_add}
use ixmap.Lpm.Walk.{path_entries, lpm_lookup-path_entries}
use ixmap.Lpm.Entries.{LpmLaws, insert_entry, erase_entry}
use ixmap.Lpm.Order.{IsOrdered, Longest, lpm_lookup-Longest}
use ixmap.Lpm.Preserve.{lpm_add-IsOrdered, lpm_delete-IsOrdered}
use ixmap.Lpm.Effect.{meets, lpm_add-path_entries}
use ixmap.Lpm.Remove.{lpm_delete-path_entries}
use ixmap.Neigh.{Family}
use ixmap.Fib.{
  Words, FibEntry, Refs, fib_entry_identify, fib_entry_compare, fib_ops, Fib, FibState,
  known_family, fib_route_update, fib_route_delete, fib_lookup,
}

pub identify_eq :
    (e : FibEntry) (id len : ℕ)
    → (fib_entry_identify e id len == 0) ≡ (if e.id == id then e.prefix_len == len else false)
unfolding fib_entry_identify
identify_eq e id len = ground arith

pub compare_eq : (e : FibEntry) (len : ℕ) → (fib_entry_compare e len == 0) ≡ leb e.prefix_len len
unfolding fib_entry_compare
compare_eq e len = ground arith

-- The callbacks of the forwarding table do what the trie relies on.
abbrev pub fib_laws : LpmLaws fib_ops
fib_laws = record {
  id_of = λ e. e.id;
  len_of = λ e. e.prefix_len;
  identify_eq = identify_eq;
  compare_eq = compare_eq;
}

-- The better of a route and of what was found before: the old one only if it is longer.
abbrev pub better_route : FibEntry → Option FibEntry → Option FibEntry
better_route entry none = some entry
better_route entry (some old) = if ltb entry.prefix_len old.prefix_len then some old else some entry

first_entry-insert_entry :
    (entry : FibEntry) (path : List FibEntry)
    → first_entry (insert_entry fib_laws entry path) ≡ better_route entry (first_entry path)
unfolding insert_entry
first_entry-insert_entry entry [] = refl
first_entry-insert_entry entry (e ∷ path) = ground arith

-- The state in which the trie is called: the entry is allocated and its count is 0.
abbrev pub entered : FibEntry → FibState → FibState
entered entry st =
    let refs : Refs = st.store in
    record {
      store = record refs { refcount = update refs.refcount entry.block 0 };
      allocs = (mem_next st.allocs).1;
    }

module _ (fib : Fib) (family : Family) (entry : FibEntry) (st : FibState) where
  update_added :
      (r : Bool × Fib × FibState)
      → fib_route_update fib family entry st ≡ some r
      → r.0 ≡ true
      → (st' : FibState) × (lpm_add fib_ops entry.prefix entry.prefix_len entry.id entry fib
            (entered entry st)
          ≡ some (true, r.1, st'))
  unfolding fib_route_update
  update_added r run done = elim (Bool-cases (mem_next st.allocs).0) [
    | inr failed ↦
        let same = some-injective _ _ (rw (failed, fib_route_update) at run) in absurd (cc)
    | inl there ↦ elim (Bool-cases (known_family family)) [
      | inr unknown ↦
          let same = some-injective _ _ (rw (there, unknown, fib_route_update) at run) in
          absurd (cc)
      | inl known ↦
          elim (Option-cases
            (lpm_add fib_ops entry.prefix entry.prefix_len entry.id entry fib (entered entry st))) [
              | inl e ↦ absurd (ground arith)
              | inr ((ok, fib', st'), e) ↦
                  let same = some-injective _ _ (rw (there, known, fib_route_update, e) at run) in
                  let ok_true : ok ≡ true = ap (λ (p : Bool × Fib × FibState). p.0) same ∙ done in
                  (
                    st',
                    e
                        ∙ ap₂ (λ b f. some (b, f, st')) ok_true
                            (ap (λ (p : Bool × Fib × FibState). p.1) same),
                  )
            ]
    ]
  ]

  -- A successful fib_route_update on an ordered table leaves an ordered table: a destination that
  -- the prefix covers is routed by the new entry, unless it was routed by a longer one before; any
  -- other destination is routed as before.
  pub fib_route_update-fib_lookup :
      (r : Bool × Fib × FibState)
      → IsOrdered fib_laws fib
      → fib_route_update fib family entry st ≡ some r
      → r.0 ≡ true
      → IsOrdered fib_laws r.1
        × ((dst : Words)
            → fib_lookup r.1 dst ≡ (
                if meets entry.prefix entry.prefix_len dst
                then better_route entry (fib_lookup fib dst)
                else fib_lookup fib dst))
  unfolding fib_lookup
  fib_route_update-fib_lookup r o run done =
      let (st', added) = update_added r run done in
      let (r', run', ordered) =
        lpm_add-IsOrdered fib_laws entry.prefix entry entry.id fib (entered entry st) o in
      let same = some-injective _ _ (sym added ∙ run') in
      let effect =
        lpm_add-path_entries fib_laws entry.prefix entry entry.id fib (entered entry st)
          (true, r.1, st') o added refl in
      (
        rw (ap (λ (p : Bool × Fib × FibState). p.1) same) ordered,
        λ dst.
            rw (lpm_lookup-path_entries dst r.1, lpm_lookup-path_entries dst fib, effect dst)
              (elim (Bool-cases (meets entry.prefix entry.prefix_len dst)) [
                | inl hit ↦ rw hit (first_entry-insert_entry entry (path_entries dst fib))
                | inr miss ↦ rw miss refl
              ]),
      )

  -- fib_route_update on an ordered table always returns, and the table that it leaves is ordered.
  pub fib_route_update-IsOrdered :
      IsOrdered fib_laws fib
      → (r : Bool × Fib × FibState) × (fib_route_update fib family entry st ≡ some r)
        × IsOrdered fib_laws r.1
  unfolding fib_route_update
  fib_route_update-IsOrdered o =
      let ((done, fib', st'), run, ordered) =
        lpm_add-IsOrdered fib_laws entry.prefix entry entry.id fib (entered entry st) o in
      elim (Bool-cases (mem_next st.allocs).0) [
        | inr failed ↦ rw failed (_, refl, o)
        | inl there ↦ elim (Bool-cases (known_family family)) [
          | inr unknown ↦ rw (there, unknown) (_, refl, o)
          | inl known ↦ rw (there, known, run) (_, refl, ordered)
        ]
      ]

-- fib_route_delete leaves an ordered table, on success and on failure.
pub fib_route_delete-IsOrdered :
    (fib : Fib) (family : Family) (prefix : Words) (prefix_len id : ℕ) (refs : Refs)
    → IsOrdered fib_laws fib
    → IsOrdered fib_laws (fib_route_delete fib family prefix prefix_len id refs).1
unfolding fib_route_delete
fib_route_delete-IsOrdered fib family prefix prefix_len id refs =
    lpm_delete-IsOrdered fib_laws prefix prefix_len id fib refs

-- A successful fib_route_delete on an ordered table leaves an ordered table: a destination that
-- the prefix covers is routed by the longest of its routes but for the deleted one, any other
-- destination as before.
pub fib_route_delete-fib_lookup :
    (fib : Fib) (family : Family) (prefix : Words) (prefix_len id : ℕ) (refs : Refs)
    → IsOrdered fib_laws fib
    → (fib_route_delete fib family prefix prefix_len id refs).0 ≡ true
    → let fib' = (fib_route_delete fib family prefix prefix_len id refs).1 in
      IsOrdered fib_laws fib'
      × ((dst : Words)
          → Longest fib_laws (fib_lookup fib' dst) (
              if meets prefix prefix_len dst
              then erase_entry fib_laws (path_entries dst fib) id prefix_len
              else path_entries dst fib))
unfolding fib_route_delete fib_lookup
fib_route_delete-fib_lookup fib family prefix prefix_len id refs o done =
    let ordered = lpm_delete-IsOrdered fib_laws prefix prefix_len id fib refs o in
    (
      ordered,
      λ dst.
          rw (← lpm_delete-path_entries fib_laws prefix id prefix_len fib refs o done dst)
            (lpm_lookup-Longest fib_laws dst _ ordered),
    )
