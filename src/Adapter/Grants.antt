-- ===== src/Adapter/Grants.antt =====
-- ixmap_configure_msix of kmod/ixmap_main.c when the kernel grants all that it asks for.
use ixmap.Base.{
  ℕ, zero, suc, ◌+◌, ◌≤◌, ◌≡◌, refl, ap, ◌∙◌, Bool, true, false, Option, some, arith, ltb, if_true,
}
use ixmap.Hw.{Regs}
use ixmap.Adapter.{
  Held, Adapter, enabled, MsixCalls, granted, enable_msix, request_irqs, enter_irqs, configure_irqs,
  ixmap_configure_msix, enter_vectors,
}
use ixmap.Adapter.Irqs.{Decreasing, ixmap_configure_msix-eq}

-- The vectors suffice and nothing is refused.
pub record Grants (calls : MsixCalls) (a : Adapter) : Type 0 where
  pub enough : a.num_rx_queues + a.num_tx_queues ≤ a.max_msix_vectors
  pub entries : calls.entries_allocated ≡ true
  pub enables : (n : ℕ) → calls.enable n ≡ enabled
  pub rx_array : calls.rx_array_allocated ≡ true
  pub tx_array : calls.tx_array_allocated ≡ true
  pub irqs : (v : ℕ) → calls.irq_allocated v ≡ true
  pub handlers : (v : ℕ) → calls.irq_requested v ≡ true

pub Grants-Decreasing : (calls : MsixCalls) (a : Adapter) → Grants calls a → Decreasing calls.enable
Grants-Decreasing calls a g n m e = absurd (ground (arith, g.enables n, e))

pub Grants-frame :
    (calls : MsixCalls) (a b : Adapter)
    → Grants calls a
    → b.num_rx_queues ≡ a.num_rx_queues
    → b.num_tx_queues ≡ a.num_tx_queues
    → b.max_msix_vectors ≡ a.max_msix_vectors
    → Grants calls b
Grants-frame calls a b g e f m = record {
  enough = omega (arith, g.enough);
  entries = g.entries;
  enables = g.enables;
  rx_array = g.rx_array;
  tx_array = g.tx_array;
  irqs = g.irqs;
  handlers = g.handlers;
}

pub done_of :
    (done : Bool) (a b : Adapter)
    → ◌≡◌ {A = Option (Bool × Adapter)} (some (done, a)) (some (true, b))
    → done ≡ true
done_of done a b e = cc

of_done : (r : Bool × Adapter) → r.0 ≡ true → some r ≡ some (true, r.1)
of_done r e = λ i. some (e i, r.1)

module _ (calls : MsixCalls) (a : Adapter) (g : Grants calls a) where
  request_irqs-done :
      (rate direction n queue vector : ℕ) (regs : Regs) (held : Held)
      → (request_irqs calls rate direction n queue vector regs held).done ≡ true
  unfolding request_irqs
  request_irqs-done rate direction zero queue vector regs held = refl
  request_irqs-done rate direction (suc n) queue vector regs held =
      rw (g.irqs vector, g.handlers vector)
        (request_irqs-done rate direction n (suc queue) (suc vector) _ _)

  enable_msix-granted : (n : ℕ) → enable_msix calls.enable (suc n) n ≡ granted n
  unfolding enable_msix
  enable_msix-granted zero = refl
  enable_msix-granted (suc n) = rw (enable_msix, g.enables (suc n)) refl

  configure_irqs-done : (b : Adapter) → (configure_irqs calls b).0 ≡ true
  unfolding configure_irqs enter_irqs
  configure_irqs-done b =
      ap (λ (r : Bool × Adapter). r.0)
        (if_true calls.rx_array_allocated _ _ g.rx_array
          ∙ if_true calls.tx_array_allocated _ _ g.tx_array
          ∙ if_true _ _ _ (request_irqs-done b.num_interrupt_rate 0 b.num_rx_queues 0 0 b.regs _)
          ∙ if_true _ _ _
              (request_irqs-done b.num_interrupt_rate 1 b.num_tx_queues 0 b.num_rx_queues _ _))

  pub ixmap_configure_msix-granted :
      (a' : Adapter) × (ixmap_configure_msix calls a ≡ some (true, a'))
  ixmap_configure_msix-granted =
      let n = a.num_rx_queues + a.num_tx_queues in
      let fits : ltb a.max_msix_vectors n ≡ false = ground (arith, g.enough) in
      let asked =
        ixmap_configure_msix-eq calls a fits g.entries
        ∙ ap (enter_vectors calls a) (enable_msix-granted n) in
      (_, asked ∙ of_done _ (configure_irqs-done _))
