-- ===== src/Adapter/Assign.antt =====
-- ixmap_irq_assign of kmod/ixmap_main.c: which queue indices it serves.
use ixmap.Base.{
  ℕ, zero, suc, ◌+◌, ◌-◌, ◌<◌, ◌≡◌, ◌≢◌, ◌↔◌, ◌⊎◌, refl, ap, ◌∙◌, List, [], ◌∷◌, false, Option,
  none, some, arith, ltb, length, get_elem?, set, Bool-cases, inl, inr,
}
use ixmap.Adapter.{
  Irq, live, IrqArray, Held, Adapter, context_count, IrqType, rx, tx, unknown, Assigned, irq_assign,
  vectors_of, ixmap_irq_assign,
}
use ixmap.Adapter.Irqs.{contexts_of, HasIrqs}

-- A context in the place of another.
set_contexts :
    (irqs : List Irq) (i c : ℕ)
    → i < length irqs
    → (irq : Irq) × (get_elem? irqs i ≡ some irq)
      × (length (set irqs i (record irq { efd_ctx = some c })) ≡ length irqs)
      × (contexts_of (set irqs i (record irq { efd_ctx = some c })) + context_count irq.efd_ctx
          ≡ contexts_of irqs + 1)
set_contexts [] i c h = absurd (omega arith)
set_contexts (irq ∷ irqs) zero c h = (irq, refl, refl, omega arith)
set_contexts (irq ∷ irqs) (suc i) c h =
    let (found, e, l, t) = set_contexts irqs i c (omega arith) in
    (found, e, ap suc l, omega (arith, t))

get_elem?_end : (irqs : List Irq) → get_elem? irqs (length irqs) ≡ none
get_elem?_end [] = refl
get_elem?_end (irq ∷ irqs) = get_elem?_end irqs

-- An index in the array: the interrupt is found, and a context takes the place of the old one.
irq_assign-live :
    (ctx : Option ℕ) (array : IrqArray) (irqs : List Irq) (i : ℕ) (held : Held) (vectors : ℕ → ℕ)
    → array ≡ live irqs
    → i < length irqs
    → (r : Assigned) × (irqs' : List Irq) × (irq_assign ctx array i held vectors
        ≡ some (
          r,
          live irqs',
          record held { contexts = held.contexts + contexts_of irqs' - contexts_of irqs },
        ))
      × (length irqs' ≡ length irqs)
unfolding irq_assign
irq_assign-live none array irqs i held vectors a h =
    let (irq, e, l, t) = set_contexts irqs i 0 h in
    (none, irqs, rw (a, irq_assign, e) (ground arith), refl)
irq_assign-live (some c) array irqs i held vectors a h =
    let (irq, e, l, t) = set_contexts irqs i c h in
    (
      some (vectors irq.entry, irq.entry),
      set irqs i (record irq { efd_ctx = some c }),
      rw (a, irq_assign, e) (ground arith),
      l,
    )

-- The contract: the index is not the number of queues.
abbrev pub Serves : IrqType → ℕ → Adapter → Type 0
Serves rx i a = i ≢ a.num_rx_queues
Serves tx i a = i ≢ a.num_tx_queues
Serves unknown i a = Unit

-- ixmap_irq_assign on an adapter whose queues have their interrupts does not fail unless the index
-- is the number of queues, and leaves each queue its interrupt, all contexts accounted for.
pub ixmap_irq_assign-HasIrqs :
    (type : IrqType) (i : ℕ) (ctx : Option ℕ) (a : Adapter)
    → HasIrqs a
    → Serves type i a
    → (r : Assigned) × (a' : Adapter) × (ixmap_irq_assign type i ctx a ≡ some (r, a'))
      × HasIrqs a'
      × (a' ≡ record a { rx_irq = a'.rx_irq; tx_irq = a'.tx_irq; held = a'.held })
unfolding ixmap_irq_assign
ixmap_irq_assign-HasIrqs rx i ctx a has s = elim (Bool-cases (ltb a.num_rx_queues i)) [
  | inl past ↦ rw past (none, a, refl, has, refl)
  | inr before ↦
      let vectors = vectors_of a.msix_entries in
      let (r, irqs', run, l) =
        irq_assign-live ctx a.rx_irq has.rx_list i a.held vectors has.rx_live
          (ground (arith, has.rx_length)) in
      let held' : Held = record a.held {
        contexts = a.held.contexts + contexts_of irqs' - contexts_of has.rx_list;
      } in
      (
        r,
        record a { rx_irq = live irqs'; held = held' },
        rw (ixmap_irq_assign, before, run) refl,
        record {
          rx_list = irqs';
          tx_list = has.tx_list;
          vectors = has.vectors;
          rx_live = refl;
          tx_live = has.tx_live;
          rx_length = l ∙ has.rx_length;
          tx_length = has.tx_length;
          entries = has.entries;
          counted = has.counted;
          holds = ground (arith, l);
        },
        refl,
      )
]
ixmap_irq_assign-HasIrqs tx i ctx a has s = elim (Bool-cases (ltb a.num_tx_queues i)) [
  | inl past ↦ rw past (none, a, refl, has, refl)
  | inr before ↦
      let vectors = vectors_of a.msix_entries in
      let (r, irqs', run, l) =
        irq_assign-live ctx a.tx_irq has.tx_list i a.held vectors has.tx_live
          (ground (arith, has.tx_length)) in
      let held' : Held = record a.held {
        contexts = a.held.contexts + contexts_of irqs' - contexts_of has.tx_list;
      } in
      (
        r,
        record a { tx_irq = live irqs'; held = held' },
        rw (ixmap_irq_assign, before, run) refl,
        record {
          rx_list = has.rx_list;
          tx_list = irqs';
          vectors = has.vectors;
          rx_live = has.rx_live;
          tx_live = refl;
          rx_length = has.rx_length;
          tx_length = l ∙ has.tx_length;
          entries = has.entries;
          counted = has.counted;
          holds = ground (arith, l);
        },
        refl,
      )
]
ixmap_irq_assign-HasIrqs unknown i ctx a has s = (none, a, refl, has, refl)

-- The index is past the array by one.
abbrev pub PastEnd : IrqType → ℕ → Adapter → Type 0
PastEnd rx i a = i ≡ a.num_rx_queues
PastEnd tx i a = i ≡ a.num_tx_queues
PastEnd unknown i a = ⊥

irq_assign-end :
    (ctx : Option ℕ) (array : IrqArray) (irqs : List Irq) (i : ℕ) (held : Held) (vectors : ℕ → ℕ)
    → array ≡ live irqs
    → i ≡ length irqs
    → irq_assign ctx array i held vectors ≡ none
unfolding irq_assign
irq_assign-end ctx array irqs i held vectors a e = rw (a, e, irq_assign, get_elem?_end irqs) refl

past_end :
    (type : IrqType) (i : ℕ) (ctx : Option ℕ) (a : Adapter)
    → HasIrqs a
    → PastEnd type i a
    → ixmap_irq_assign type i ctx a ≡ none
unfolding ixmap_irq_assign
past_end rx i ctx a has e =
    let run =
      irq_assign-end ctx a.rx_irq has.rx_list i a.held (vectors_of a.msix_entries) has.rx_live
        (omega (arith, has.rx_length, e)) in
    let before : ltb a.num_rx_queues i ≡ false = ground arith in
    rw (ixmap_irq_assign, before, run) refl
past_end tx i ctx a has e =
    let run =
      irq_assign-end ctx a.tx_irq has.tx_list i a.held (vectors_of a.msix_entries) has.tx_live
        (omega (arith, has.tx_length, e)) in
    let before : ltb a.num_tx_queues i ≡ false = ground arith in
    rw (ixmap_irq_assign, before, run) refl
past_end unknown i ctx a has e = absurd e

Serves-cases : (type : IrqType) (i : ℕ) (a : Adapter) → Serves type i a ⊎ PastEnd type i a
Serves-cases rx i a = ground arith
Serves-cases tx i a = ground arith
Serves-cases unknown i a = inl tt

-- On an adapter whose queues have their interrupts, ixmap_irq_assign reads past the end of its array
-- exactly if the index is the number of queues of the direction.
pub ixmap_irq_assign-eq-none :
    (type : IrqType) (i : ℕ) (ctx : Option ℕ) (a : Adapter)
    → HasIrqs a
    → (ixmap_irq_assign type i ctx a ≡ none) ↔ PastEnd type i a
ixmap_irq_assign-eq-none type i ctx a has = (
  λ e. elim (Serves-cases type i a) [
    | inl s ↦
        let (r, a', run, kept, same) = ixmap_irq_assign-HasIrqs type i ctx a has s in
        absurd (cc (run, e))
    | inr p ↦ p
  ],
  λ p. past_end type i ctx a has p,
)
