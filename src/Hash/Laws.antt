-- ===== src/Hash/Laws.antt =====
-- The table as a partial map from keys: hash_add, hash_delete, hash_lookup, hash_delete_all.
use ixmap.Base.{
  ℕ, zero, suc, ◌+◌, ◌≤◌, ◌≡◌, refl, ◌∙◌, inl, inr, [], ◌∷◌, none, some, true, arith, ltb, leb,
  ◌==◌, if◌then◌else◌, update, ◌&&◌, Option-cases,
}
use ixmap.Hash.Chain.{
  count_key, count_key_congr, count_key_of_none, count_key_of_some, find_entry-unlink,
  count_key-unlink, count_key-append,
}
use ixmap.Hash.{
  KeyOps, HashEntry, HashTable, hash_bit, hash_size, hash_init, hash_entry_init, find_entry, unlink,
  hash_add, hash_delete, hash_lookup, delete_heads, hash_delete_all,
}

abbrev pub bucket_of : {K : Type 0} → KeyOps K → K → ℕ
bucket_of ops q = ops.hash_key_generate q hash_bit

-- Every bucket is among those that the loop of hash_delete_all visits.
bucket_swept :
    {K : Type 0} (ops : KeyOps K) (q : K)
    → (leb 0 (bucket_of ops q) && ltb (bucket_of ops q) (0 + hash_size)) ≡ true
bucket_swept ops q = ground (arith, ops.generate_lt q)

module _ {K V : Type 0} (ops : KeyOps K) where
  -- A key occurs at most once, and only in its own bucket.
  abbrev pub IsPlaced : HashTable K V → Type 0
  IsPlaced t =
      (q : K) (i : ℕ) → count_key ops q (t.head i) ≤ (if bucket_of ops q == i then 1 else 0)

  -- hash_init gives a table in which nothing is found.
  pub hash_init_empty : IsPlaced hash_init × ((q : K) → hash_lookup {V = V} ops hash_init q ≡ none)
  unfolding hash_init hash_lookup find_entry count_key
  hash_init_empty = (λ q i. omega arith, λ q. refl)

  -- hash_add on a new key returns 0: the table stays well placed, the key leads to the new entry
  -- and every other key to what it led to.
  pub hash_add-lookup :
      (t : HashTable K V) (key : K) (value : V)
      → IsPlaced t
      → hash_lookup ops t key ≡ none
      → (t' : HashTable K V) × (hash_add ops t key value ≡ some t')
        × IsPlaced t'
        × ((q : K)
            → hash_lookup ops t' q ≡ (
                if ops.hash_key_compare q key == 0
                then some (record { key = key; value = value })
                else hash_lookup ops t q))
  unfolding hash_add hash_lookup hash_entry_init find_entry count_key
  hash_add-lookup t key value placed fresh = (
    record {
      head =
          update t.head (bucket_of ops key)
            (hash_entry_init key value ∷ t.head (bucket_of ops key));
    },
    ground arith,
    λ q i. ground (
      arith,
      placed q i,
      ops.generate_congr q key,
      count_key_congr ops q key (t.head i),
      count_key_of_none ops key (t.head i),
    ),
    λ q. ground (arith, ops.generate_congr q key),
  )

  -- hash_delete of a stored key unlinks its entry and hands that entry to the callback; the key
  -- is no longer found and every other key leads to what it led to.
  pub hash_delete-lookup :
      (t : HashTable K V) (key : K) (entry : HashEntry K V)
      → IsPlaced t
      → hash_lookup ops t key ≡ some entry
      → (t' : HashTable K V) × (hash_delete ops t key ≡ some (entry, t'))
        × IsPlaced t'
        × ((q : K)
            → hash_lookup ops t' q
              ≡ (if ops.hash_key_compare q key == 0 then none else hash_lookup ops t q))
  unfolding hash_delete hash_lookup
  hash_delete-lookup t key entry placed found = (
    record {
      head = update t.head (bucket_of ops key) (unlink ops key (t.head (bucket_of ops key)));
    },
    ground arith,
    λ q i. ground (arith, placed q i, count_key-unlink ops key q (t.head i)),
    λ q. ground (
      arith,
      placed q (bucket_of ops q),
      ops.generate_congr q key,
      find_entry-unlink ops key q (t.head (bucket_of ops key)),
    ),
  )

  -- hash_delete of a key that is not stored returns -1.
  hash_delete-absent :
      (t : HashTable K V) (key : K) → hash_lookup ops t key ≡ none → hash_delete ops t key ≡ none
  unfolding hash_delete hash_lookup
  hash_delete-absent t key absent = ground arith

  delete_heads-head :
      (n i j : ℕ) (t : HashTable K V)
      → (delete_heads n i t).1.head j ≡ (if leb i j && ltb j (i + n) then [] else t.head j)
  unfolding delete_heads
  delete_heads-head zero i j t = ground arith
  delete_heads-head (suc n) i j t =
      delete_heads-head n (suc i) j (record { head = update t.head i [] }) ∙ ground arith

  delete_heads-count :
      (n i : ℕ) (q : K) (t : HashTable K V)
      → IsPlaced t
      → count_key ops q (delete_heads n i t).0 ≡ (
          if leb i (bucket_of ops q) && ltb (bucket_of ops q) (i + n)
          then count_key ops q (t.head (bucket_of ops q))
          else 0)
  unfolding delete_heads count_key
  delete_heads-count zero i q t placed = ground arith
  delete_heads-count (suc n) i q t placed =
      count_key-append ops q (t.head i) _
      ∙ ground (
        arith,
        placed q i,
        delete_heads-count n (suc i) q (record { head = update t.head i [] })
            (λ p j. ground (arith, placed p j)),
      )

  -- hash_delete_all empties the table, and hands each stored entry to the callback once: a key is
  -- among the deleted entries as often as hash_lookup finds it.
  hash_delete_all-lookup :
      (t : HashTable K V) (q : K)
      → IsPlaced t
      → (hash_lookup ops (hash_delete_all t).1 q ≡ none)
        × (count_key ops q (hash_delete_all t).0
            ≡ elim (hash_lookup ops t q) [ none ↦ 0 | some _ ↦ 1 ])
  unfolding hash_delete_all hash_lookup find_entry
  hash_delete_all-lookup t q placed =
      let chain = t.head (bucket_of ops q) in
      (
        rw (delete_heads-head hash_size 0 (bucket_of ops q) t, bucket_swept ops q),
        rw (delete_heads-count hash_size 0 q t placed, bucket_swept ops q)
            (elim (Option-cases (find_entry ops q chain)) [
              | inl e ↦ ground (arith, count_key_of_none ops q chain e)
              | inr (entry, e) ↦
                  ground (arith, placed q (bucket_of ops q), count_key_of_some ops q chain entry e)
            ]),
      )
