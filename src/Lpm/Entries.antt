-- ===== src/Lpm/Entries.antt =====
-- The list of one node: lpm_entry_insert keeps it in descending order of prefix length, and
-- lpm_entry_delete takes out what lpm_entry_insert put in.
use ixmap.Base.{
  ℕ, zero, suc, ◌+◌, ◌-◌, ◌≤◌, ◌≡◌, refl, List, [], ◌∷◌, Bool, true, false, ◌||◌, Option, none,
  some, arith, ◌==◌, ltb, leb, if◌then◌else◌, All, All-mono, Bool-cases, inl, inr,
}
use ixmap.Lpm.{LpmOps, find_prior, add_behind, lpm_entry_insert, lpm_entry_delete}

-- What the trie relies on in its callbacks: an entry has an id and a prefix length,
-- `entry_identify` is 0 exactly for these, and `entry_compare` is not 0 for a longer entry.
pub record LpmLaws {P S : Type 0} (ops : LpmOps P S) : Type 0 where
  pub id_of : P → ℕ
  pub len_of : P → ℕ
  pub identify_eq :
      (e : P) (id len : ℕ)
      → (ops.entry_identify e id len == 0) ≡ (if id_of e == id then len_of e == len else false)
  pub compare_eq : (e : P) (len : ℕ) → (ops.entry_compare e len == 0) ≡ leb (len_of e) len

module _ {P S : Type 0} {ops : LpmOps P S} (laws : LpmLaws ops) where
  open laws use {id_of, len_of, identify_eq, compare_eq}

  -- Every entry of the list has a prefix length of at most `n`.
  abbrev pub AtMost : ℕ → List P → Type 0
  AtMost n = All (λ e. len_of e ≤ n)

  abbrev pub Descending : List P → Type 0
  Descending [] = Unit
  Descending (e ∷ head) = AtMost (len_of e) head × Descending head

  -- Whether an entry has the id and the prefix length.
  unfoldable pub has_entry : List P → ℕ → ℕ → Bool
  has_entry [] id len = false
  has_entry (e ∷ head) id len =
      (if id_of e == id then len_of e == len else false) || has_entry head id len

  -- The list with `x` behind the longer entries, and the list without the first such entry.
  unfoldable pub insert_entry : P → List P → List P
  insert_entry x [] = x ∷ []
  insert_entry x (e ∷ head) =
      if ltb (len_of x) (len_of e) then e ∷ insert_entry x head else x ∷ e ∷ head

  unfoldable pub erase_entry : List P → ℕ → ℕ → List P
  erase_entry [] id len = []
  erase_entry (e ∷ head) id len =
      if (if id_of e == id then len_of e == len else false)
      then head
      else e ∷ erase_entry head id len

  pub AtMost-mono : (m n : ℕ) (head : List P) → m ≤ n → AtMost m head → AtMost n head
  AtMost-mono m n head h = All-mono _ _ head (λ e k. omega arith)

  pub All-insert_entry :
      (Q : P → Type 0) (x : P) (head : List P) → Q x → All Q head → All Q (insert_entry x head)
  unfolding insert_entry
  All-insert_entry Q x [] q a = (q, tt)
  All-insert_entry Q x (e ∷ head) q a = elim (Bool-cases (ltb (len_of x) (len_of e))) [
    | inl more ↦ rw more (a.0, All-insert_entry Q x head q a.1)
    | inr less ↦ rw less (q, a)
  ]

  pub All-erase_entry :
      (Q : P → Type 0) (head : List P) (id len : ℕ) → All Q head → All Q (erase_entry head id len)
  unfolding erase_entry
  All-erase_entry Q [] id len a = tt
  All-erase_entry Q (e ∷ head) id len a =
      elim (Bool-cases (if id_of e == id then len_of e == len else false)) [
        | inl hit ↦ rw hit a.1
        | inr miss ↦ rw miss (a.0, All-erase_entry Q head id len a.1)
      ]

  -- How many entries stand before the place of `insert_entry`.
  longer : List P → ℕ → ℕ
  longer [] len = 0
  longer (e ∷ head) len = if ltb len (len_of e) then suc (longer head len) else 0

  longer_of_AtMost : (head : List P) (len : ℕ) → AtMost len head → longer head len ≡ 0
  unfolding longer
  longer_of_AtMost [] len h = refl
  longer_of_AtMost (e ∷ head) len h = ground arith

  find_prior-eq :
      (head : List P) (pos : ℕ) (prior : Option ℕ) (id len : ℕ)
      → Descending head
      → find_prior ops head pos prior id len ≡ (
          if has_entry head id len
          then none
          else some (if longer head len == 0 then prior else some (pos + longer head len - 1)))
  unfolding find_prior has_entry longer
  find_prior-eq [] pos prior id len d = refl
  find_prior-eq (e ∷ head) pos prior id len d = elim (Bool-cases (ltb len (len_of e))) [
    | inl more ↦ ground (
      arith,
      identify_eq e id len,
      compare_eq e len,
      find_prior-eq head (suc pos) (some pos) id len d.1,
    )
    | inr less ↦ ground (
      arith,
      identify_eq e id len,
      compare_eq e len,
      find_prior-eq head (suc pos) prior id len d.1,
      longer_of_AtMost head len (AtMost-mono (len_of e) len head (ground arith) d.0),
    )
  ]

  insert_entry_first :
      (head : List P) (x : P) → longer head (len_of x) ≡ 0 → insert_entry x head ≡ x ∷ head
  unfolding insert_entry longer
  insert_entry_first [] x h = refl
  insert_entry_first (e ∷ head) x h = ground arith

  add_behind-eq :
      (head : List P) (x : P) (n : ℕ)
      → longer head (len_of x) ≡ suc n
      → add_behind ops head n x ≡ insert_entry x head
  unfolding add_behind insert_entry longer
  add_behind-eq [] x n h = absurd (omega arith)
  add_behind-eq (e ∷ head) x zero h = ground (arith, insert_entry_first head x)
  add_behind-eq (e ∷ head) x (suc n) h = ground (arith, add_behind-eq head x n)

  -- lpm_entry_insert on a list in descending order fails exactly if an entry with the id and the
  -- length is there; else it puts the new entry behind the longer ones and calls entry_pull.
  pub lpm_entry_insert-eq :
      (head : List P) (id : ℕ) (x : P) (store : S)
      → Descending head
      → lpm_entry_insert ops head id (len_of x) x store ≡ (
          if has_entry head id (len_of x)
          then none
          else some (insert_entry x head, ops.entry_pull x store))
  unfolding lpm_entry_insert
  lpm_entry_insert-eq head id x store d = ground (
    arith,
    find_prior-eq head 0 none id (len_of x) d,
    insert_entry_first head x,
    add_behind-eq head x (longer head (len_of x) - 1),
  )

  pub insert_entry-Descending :
      (x : P) (head : List P) → Descending head → Descending (insert_entry x head)
  unfolding insert_entry
  insert_entry-Descending x [] d = (tt, tt)
  insert_entry-Descending x (e ∷ head) d = elim (Bool-cases (ltb (len_of x) (len_of e))) [
    | inl more ↦ rw more (
      All-insert_entry (λ y. len_of y ≤ len_of e) x head (ground arith) d.0,
      insert_entry-Descending x head d.1,
    )
    | inr less ↦
        rw less ((ground arith, AtMost-mono (len_of e) (len_of x) head (ground arith) d.0), d)
  ]

  -- lpm_entry_delete fails exactly if no entry has the id and the length; else it takes the first
  -- such entry out and leaves the others in their order.
  pub lpm_entry_delete-eq :
      (head : List P) (id len : ℕ) (store : S)
      → (has_entry head id len ≡ false → lpm_entry_delete ops head id len store ≡ none)
        × (has_entry head id len ≡ true
            → (store' : S) × (lpm_entry_delete ops head id len store
                ≡ some (erase_entry head id len, store')))
  unfolding lpm_entry_delete has_entry erase_entry
  lpm_entry_delete-eq [] id len store = (λ h. refl, λ h. cc)
  lpm_entry_delete-eq (e ∷ head) id len store =
      let (absent, present) = lpm_entry_delete-eq head id len store in
      elim (Bool-cases (if id_of e == id then len_of e == len else false)) [
        | inl hit ↦
            (λ h. ground arith, λ h. (ops.entry_put e store, ground (arith, identify_eq e id len)))
        | inr miss ↦ (
          λ h. ground (arith, identify_eq e id len, absent),
          λ h.
              let (store', run) = present (ground arith) in
              (store', ground (arith, identify_eq e id len)),
        )
      ]

  pub erase_entry-Descending :
      (head : List P) (id len : ℕ) → Descending head → Descending (erase_entry head id len)
  unfolding erase_entry
  erase_entry-Descending [] id len d = tt
  erase_entry-Descending (e ∷ head) id len d =
      elim (Bool-cases (if id_of e == id then len_of e == len else false)) [
        | inl hit ↦ rw hit d.1
        | inr miss ↦ rw miss (
          All-erase_entry (λ y. len_of y ≤ len_of e) head id len d.0,
          erase_entry-Descending head id len d.1,
        )
      ]

  -- Deletion undoes insertion, if no entry with the id and the length was there before.
  pub erase_entry-insert_entry :
      (x : P) (head : List P)
      → has_entry head (id_of x) (len_of x) ≡ false
      → erase_entry (insert_entry x head) (id_of x) (len_of x) ≡ head
  unfolding erase_entry insert_entry has_entry
  erase_entry-insert_entry x [] h = ground arith
  erase_entry-insert_entry x (e ∷ head) h = ground (arith, erase_entry-insert_entry x head)
