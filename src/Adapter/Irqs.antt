-- ===== src/Adapter/Irqs.antt =====
-- The interrupts of an adapter in kmod/ixmap_main.c: what ixmap_configure_msix takes and gives back.
use ixmap.Base.{
  ℕ, zero, suc, ◌+◌, ◌<◌, ◌≡◌, ◌⊎◌, refl, ap, ◌∙◌, List, [], ◌∷◌, Bool, true, false, some, arith,
  ltb, ◌==◌, if◌then◌else◌, length, Bool-cases, if_true, if_false, inl, inr,
}
use ixmap.Hw.{Regs}
use ixmap.Adapter.{
  Irq, live, Held, Adapter, Answer, enabled, fewer, refused, MsixCalls, Enabling, granted, failed,
  endless, enable_msix, context_count, Requested, request_irqs, give_back, enter_irqs,
  configure_irqs, ixmap_configure_msix, enter_vectors,
}

abbrev pub contexts_of : List Irq → ℕ
contexts_of [] = 0
contexts_of (irq ∷ irqs) = context_count irq.efd_ctx + contexts_of irqs

-- `n` more interrupts with their handlers.
abbrev pub add_irqs : ℕ → Held → Held
add_irqs n held = record held { irqs = held.irqs + n; handlers = held.handlers + n }

-- What one loop leaves: as many interrupts as are listed, without contexts, and all of them if it
-- is done.
abbrev IsRequested : ℕ → Held → Requested → Type 0
IsRequested n held r =
    (r.held ≡ add_irqs (length r.requested) held)
    × (r.done ≡ true → length r.requested ≡ n)
    × (contexts_of r.requested ≡ 0)

request_irqs-IsRequested :
    (calls : MsixCalls) (rate direction n queue vector : ℕ) (regs : Regs) (held : Held)
    → IsRequested n held (request_irqs calls rate direction n queue vector regs held)
unfolding request_irqs
request_irqs-IsRequested calls rate direction zero queue vector regs held =
    (ground arith, λ d. refl, refl)
request_irqs-IsRequested calls rate direction (suc n) queue vector regs held =
    elim (Bool-cases (calls.irq_allocated vector)) [
      | inr a ↦ rw a (ground arith, λ d. ground arith, refl)
      | inl a ↦ elim (Bool-cases (calls.irq_requested vector)) [
        | inr b ↦ rw (a, b) (ground arith, λ d. ground arith, refl)
        | inl b ↦
            let (h, d, c) =
              request_irqs-IsRequested calls rate direction n (suc queue) (suc vector) _
                (record held { irqs = held.irqs + 1; handlers = held.handlers + 1 }) in
            rw (a, b) (h ∙ ground arith, λ e. ap suc (d e), omega (arith, c))
      ]
    ]

give_back-eq :
    (irqs : List Irq) (n m : ℕ) (held : Held)
    → held.irqs ≡ n + length irqs
    → held.handlers ≡ m + length irqs
    → give_back irqs held ≡ record held { irqs = n; handlers = m }
unfolding give_back
give_back-eq [] n m held e f = ground arith
give_back-eq (irq ∷ irqs) n m held e f = give_back-eq irqs n m _ (omega arith) (omega arith)

abbrev pub nothing_held : Held
nothing_held = record {
  entries = 0;
  msix = false;
  arrays = 0;
  irqs = 0;
  handlers = 0;
  contexts = 0;
}

-- What an adapter with these interrupts holds.
abbrev pub held_by : List Irq → List Irq → Held
held_by rx_list tx_list =
    let n = length rx_list + length tx_list in
    record {
      entries = 1;
      msix = if n == 0 then false else true;
      arrays = 2;
      irqs = n;
      handlers = n;
      contexts = contexts_of rx_list + contexts_of tx_list;
    }

-- The adapter has an array of interrupts for each direction, one for each queue, and holds nothing
-- else.
pub record HasIrqs (a : Adapter) : Type 0 where
  pub rx_list : List Irq
  pub tx_list : List Irq
  pub vectors : ℕ → ℕ
  pub rx_live : a.rx_irq ≡ live rx_list
  pub tx_live : a.tx_irq ≡ live tx_list
  pub rx_length : length rx_list ≡ a.num_rx_queues
  pub tx_length : length tx_list ≡ a.num_tx_queues
  pub entries : a.msix_entries ≡ some vectors
  pub counted : a.num_q_vectors ≡ a.num_rx_queues + a.num_tx_queues
  pub holds : a.held ≡ held_by rx_list tx_list

-- All but the interrupts and the registers is as it was.
abbrev pub Unchanged : Adapter → Adapter → Type 0
Unchanged a a' = a' ≡ record a {
  regs = a'.regs;
  msix_entries = a'.msix_entries;
  num_q_vectors = a'.num_q_vectors;
  rx_irq = a'.rx_irq;
  tx_irq = a'.tx_irq;
  held = a'.held;
}

-- The interrupts are there, or nothing is held.
abbrev pub Configured : Adapter → Bool × Adapter → Type 0
Configured a (done, a') =
    Unchanged a a' × (done ≡ true → HasIrqs a') × (done ≡ false → a'.held ≡ nothing_held)

abbrev enabled_held : ℕ → Held
enabled_held n = record nothing_held { entries = 1; msix = if n == 0 then false else true }

Configured-if :
    (a : Adapter) (b : Bool) (x y : Bool × Adapter)
    → (b ≡ true → Configured a x)
    → (b ≡ false → Configured a y)
    → Configured a (if b then x else y)
Configured-if a true x y p q = p refl
Configured-if a false x y p q = q refl

both_arrays : Adapter → Held
both_arrays a = record a.held { arrays = a.held.arrays + 1 + 1 }

enter_irqs-Configured :
    (a : Adapter) (vectors : ℕ → ℕ) (rx tx : Requested)
    → a.held ≡ enabled_held (a.num_rx_queues + a.num_tx_queues)
    → a.msix_entries ≡ some vectors
    → a.num_q_vectors ≡ a.num_rx_queues + a.num_tx_queues
    → IsRequested a.num_rx_queues (both_arrays a) rx
    → IsRequested a.num_tx_queues rx.held tx
    → Configured a (enter_irqs a rx tx)
unfolding enter_irqs both_arrays
enter_irqs-Configured a vectors rx tx h e q (rh, rd, rc) (th, td, tc) =
    let step = Configured-if a in
    step rx.done _ _
      (λ r.
        step tx.done _ _
          (λ t. (
            refl,
            λ d. record {
              rx_list = rx.requested;
              tx_list = tx.requested;
              vectors = vectors;
              rx_live = refl;
              tx_live = refl;
              rx_length = rd r;
              tx_length = td t;
              entries = e;
              counted = q;
              holds = ground (arith, rd r, td t);
            },
            λ d. absurd (ground arith),
          ))
          (λ t. (
            refl,
            λ d. absurd (ground arith),
            λ d. ground (
              arith,
              give_back-eq tx.requested (length rx.requested) (length rx.requested) tx.held
                  (ground arith) (ground arith),
              give_back-eq rx.requested 0 0 (give_back tx.requested tx.held),
            ),
          )))
      (λ r. (
        refl,
        λ d. absurd (ground arith),
        λ d. ground (arith, give_back-eq rx.requested 0 0 rx.held (ground arith) (ground arith)),
      ))

configure_irqs-Configured :
    (calls : MsixCalls) (a : Adapter) (vectors : ℕ → ℕ)
    → a.held ≡ enabled_held (a.num_rx_queues + a.num_tx_queues)
    → a.msix_entries ≡ some vectors
    → a.num_q_vectors ≡ a.num_rx_queues + a.num_tx_queues
    → Configured a (configure_irqs calls a)
unfolding configure_irqs both_arrays
configure_irqs-Configured calls a vectors h e q =
    let both : Held = record a.held { arrays = a.held.arrays + 1 + 1 } in
    let rx = request_irqs calls a.num_interrupt_rate 0 a.num_rx_queues 0 0 a.regs both in
    let step = Configured-if a in
    step calls.rx_array_allocated _ _
      (λ _.
        step calls.tx_array_allocated _ _
          (λ _.
            enter_irqs-Configured a vectors _ _ h e q
              (request_irqs-IsRequested calls a.num_interrupt_rate 0 a.num_rx_queues 0 0 a.regs
                both)
              (request_irqs-IsRequested calls a.num_interrupt_rate 1 a.num_tx_queues 0
                a.num_rx_queues rx.regs rx.held))
          (λ _. (refl, λ d. absurd (ground arith), λ d. ground arith)))
      (λ _. (refl, λ d. absurd (ground arith), λ d. ground arith))

-- What is documented of pci_enable_msix: a number that it answers is less than what was asked for.
abbrev pub Decreasing : (ℕ → Answer) → Type 0
Decreasing enable = (n m : ℕ) → enable n ≡ fewer m → m < n

-- The loop ends, by a failure or with vectors, if it was to have any.
abbrev Ended : ℕ → Enabling → Type 0
Ended err endless = ⊥
Ended err failed = Unit
Ended err (granted n) = (n == 0) ≡ (err == 0)

Answer-cases : (x : Answer) → (x ≡ enabled) ⊎ (((n : ℕ) × (x ≡ fewer n)) ⊎ (x ≡ refused))
Answer-cases enabled = inl refl
Answer-cases (fewer n) = inr (inl (n, refl))
Answer-cases refused = inr (inr refl)

Ended-suc : (n m : ℕ) (x : Enabling) → Ended (suc n) x → Ended (suc m) x
Ended-suc n m endless e = e
Ended-suc n m failed e = tt
Ended-suc n m (granted k) e = e ∙ ground arith

enable_msix-Ended :
    (enable : ℕ → Answer) (fuel err : ℕ)
    → Decreasing enable
    → err < fuel
    → Ended err (enable_msix enable fuel err)
unfolding enable_msix
enable_msix-Ended enable zero err d h = absurd (omega arith)
enable_msix-Ended enable (suc fuel) zero d h = refl
enable_msix-Ended enable (suc fuel) (suc err) d h = elim (Answer-cases (enable (suc err))) [
  | inl e ↦ rw (enable_msix, e) refl
  | inr (inl (zero, e)) ↦ rw (enable_msix, e) refl
  | inr (inl (suc n, e)) ↦
      let more : (suc n == 0) ≡ false = ground arith in
      rw (enable_msix, e, more)
        (Ended-suc n err _
          (enable_msix-Ended enable fuel (suc n) d (omega (arith, d (suc err) (suc n) e))))
  | inr (inr e) ↦ rw (enable_msix, e) tt
]

-- Once the vectors suffice and the entries are there.
pub ixmap_configure_msix-eq :
    (calls : MsixCalls) (a : Adapter)
    → ltb a.max_msix_vectors (a.num_rx_queues + a.num_tx_queues) ≡ false
    → calls.entries_allocated ≡ true
    → ixmap_configure_msix calls a
      ≡ enter_vectors calls a (
          enable_msix calls.enable
            (suc (a.num_rx_queues + a.num_tx_queues))
            (a.num_rx_queues + a.num_tx_queues))
unfolding ixmap_configure_msix
ixmap_configure_msix-eq calls a fits there =
    if_false (ltb a.max_msix_vectors (a.num_rx_queues + a.num_tx_queues)) _ _ fits
    ∙ if_true calls.entries_allocated _ _ there

enter_vectors-Configured :
    (calls : MsixCalls) (a : Adapter) (x : Enabling)
    → a.held ≡ nothing_held
    → Ended (a.num_rx_queues + a.num_tx_queues) x
    → (done : Bool) × (a' : Adapter) × (enter_vectors calls a x ≡ some (done, a'))
      × Configured a (done, a')
enter_vectors-Configured calls a endless h ended = absurd ended
enter_vectors-Configured calls a failed h ended =
    (false, _, refl, (refl, λ e. absurd (ground arith), λ e. ground arith))
enter_vectors-Configured calls a (granted k) h ended =
    (_, _, refl, configure_irqs-Configured calls _ _ (rw (h, ended) refl) refl refl)

-- ixmap_configure_msix ends, if the kernel answers as documented, for an adapter that holds nothing:
-- all interrupts are there, one for each queue, or it fails and again holds nothing.
pub ixmap_configure_msix-Configured :
    (calls : MsixCalls) (a : Adapter)
    → Decreasing calls.enable
    → a.held ≡ nothing_held
    → (done : Bool) × (a' : Adapter) × (ixmap_configure_msix calls a ≡ some (done, a'))
      × Configured a (done, a')
unfolding ixmap_configure_msix
ixmap_configure_msix-Configured calls a d h =
    let n = a.num_rx_queues + a.num_tx_queues in
    let ended = enable_msix-Ended calls.enable (suc n) n d (omega arith) in
    elim (Bool-cases (ltb a.max_msix_vectors n)) [
      | inl many ↦ rw many (false, a, refl, (refl, λ e. absurd (ground arith), λ e. h))
      | inr fits ↦ elim (Bool-cases calls.entries_allocated) [
        | inr none_left ↦
            rw (fits, none_left) (false, _, refl, (refl, λ e. absurd (ground arith), λ e. h))
        | inl there ↦
            let (done, a', run, configured) = enter_vectors-Configured calls a _ h ended in
            (done, a', ixmap_configure_msix-eq calls a fits there ∙ run, configured)
      ]
    ]
