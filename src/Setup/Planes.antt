-- ===== src/Setup/Planes.antt =====
-- The interrupts of a plane (lib/ixmap.c): nothing that is taken is lost.
use ixmap.Base.{
  ℕ, suc, ◌+◌, ◌*◌, ◌<◌, ◌≡◌, inl, inr, List, [], ◌∷◌, ◌++◌, length, false, arith, leb, All,
  Bool-cases,
}
use ixmap.Setup.{
  Resource, memory, file, stream, unit, World, note, smp_affinity, irq_req, Handle, IrqKind, irq_rx,
  irq_tx, sizeof_irq_handle,
}
use ixmap.Setup.Balance.{
  Gains, nothing, Balanced, Gains-self, Gains-same, release-Gains, give-Gains, Balanced-attempt,
  acquire-attempt, ask-attempt, Returns, Balanced-Returns,
}
use ixmap.Setup.Answers.{
  Ready, Succeeds, release-Ready, attempt-Succeeds, acquire-attempt-Succeeds, ask-attempt-Succeeds,
}
use ixmap.Setup.Irq.{
  IrqHandle, mask_low, mask_high, ixmap_irq_setaffinity, ixmap_irq_open, ixmap_irq_close,
}
use ixmap.Setup.Plane.{
  PlanePort, Plane, sizeof_plane, sizeof_port, plane_port, close_ports, assign_ports,
  ixmap_plane_alloc, ixmap_plane_release,
}

ixmap_irq_setaffinity-Balanced :
    (vector core_id : ℕ) (w : World)
    → Balanced (λ a. nothing) w (ixmap_irq_setaffinity vector core_id w)
unfolding ixmap_irq_setaffinity
ixmap_irq_setaffinity-Balanced vector core_id w =
    acquire-attempt (λ a. nothing) nothing w w _ stream _ (Gains-self w) (λ w₁ g. g)
      λ f w₁ g.
        ask-attempt (λ a. nothing) _ w
          (note (smp_affinity vector (mask_high core_id) (mask_low core_id)) w₁) _ _ g
          (release-Gains (stream f) nothing w) λ ret. release-Gains (stream f) nothing w

-- What a handle of an interrupt holds.
abbrev pub irq_cost : IrqHandle → Resource → ℕ
irq_cost irqh r = unit (memory irqh.at sizeof_irq_handle) r + unit (file irqh.fd) r

ixmap_irq_open-Balanced :
    (ih : Handle) (core_id : ℕ) (type : IrqKind) (w : World)
    → Balanced irq_cost w (ixmap_irq_open ih core_id type w)
unfolding ixmap_irq_open
ixmap_irq_open-Balanced ih core_id type w = elim (Bool-cases (leb ih.num_queues core_id)) [
  | inl e ↦ rw e (Gains-self w)
  | inr e ↦ rw e (
      acquire-attempt irq_cost nothing w w _ file _ (Gains-self w) (λ w₁ g. g)
        λ efd w₁ g₁.
          let undo = release-Gains (file efd) nothing w in
          ask-attempt irq_cost _ w (note (irq_req ih.fd type core_id efd) w₁) _ _ g₁ undo
            λ vector w₂ g₂.
              Balanced-attempt irq_cost _ w w₂ _ (λ a. nothing) _ _
                (ixmap_irq_setaffinity-Balanced vector core_id w₂) g₂ undo
                λ ret w₃ g₃.
                  acquire-attempt irq_cost _ w w₃ _ (λ at. memory at sizeof_irq_handle) _
                    (Gains-same _ _ w w₃ (λ r. omega arith) g₃) undo
                    λ at w₄ g₄. Gains-same _ _ w w₄ (λ r. omega arith) g₄)
]

ixmap_irq_close-Gains :
    (irqh : IrqHandle) (kept : Resource → ℕ) (w w' : World)
    → Gains (λ r. irq_cost irqh r + kept r) w w'
    → Gains kept w (ixmap_irq_close irqh w')
unfolding ixmap_irq_close
ixmap_irq_close-Gains irqh kept w w' g =
    release-Gains (memory irqh.at sizeof_irq_handle) kept w _
      (give-Gains (file irqh.fd) _ _ w w' (λ r. omega arith) g)

abbrev pub port_cost : PlanePort → Resource → ℕ
port_cost port r = irq_cost port.rx_irq r + irq_cost port.tx_irq r

abbrev pub ports_cost : List PlanePort → Resource → ℕ
ports_cost [] r = 0
ports_cost (port ∷ ports) r = port_cost port r + ports_cost ports r

ports_cost-append :
    (ports more : List PlanePort) (r : Resource)
    → ports_cost (ports ++ more) r ≡ ports_cost ports r + ports_cost more r
ports_cost-append [] more r = omega arith
ports_cost-append (port ∷ ports) more r = omega (arith, ports_cost-append ports more r)

close_ports-Gains :
    (ports : List PlanePort) (kept : Resource → ℕ) (w w' : World)
    → Gains (λ r. ports_cost ports r + kept r) w w'
    → Gains kept w (close_ports ports w')
unfolding close_ports
close_ports-Gains [] kept w w' g = Gains-same _ _ w w' (λ r. omega arith) g
close_ports-Gains (port ∷ ports) kept w w' g = close_ports-Gains ports kept w _ (
    ixmap_irq_close-Gains port.tx_irq _ w _
      (ixmap_irq_close-Gains port.rx_irq _ w w' (Gains-same _ _ w w' (λ r. omega arith) g)))

assign_ports-Balanced :
    (core_id buf_count : ℕ) (list : List Handle) (i : ℕ) (assigned : List PlanePort) (w w' : World)
    → Gains (ports_cost assigned) w w'
    → Balanced ports_cost w (assign_ports core_id buf_count list i assigned w')
unfolding assign_ports
assign_ports-Balanced core_id buf_count [] i assigned w w' g = g
assign_ports-Balanced core_id buf_count (ih ∷ list) i assigned w w' g =
    let undo = λ (w₁ : World) (g : Gains (ports_cost assigned) w w₁).
      close_ports-Gains assigned nothing w w₁ (Gains-same _ _ w w₁ (λ r. omega arith) g) in
    Balanced-attempt ports_cost _ w w' _ irq_cost _ _ (ixmap_irq_open-Balanced ih core_id irq_rx w')
      g undo
      λ rx_irq w₁ g₁.
        Balanced-attempt ports_cost _ w w₁ _ irq_cost _ _
          (ixmap_irq_open-Balanced ih core_id irq_tx w₁) g₁
          (λ w₂ g₂. undo _ (ixmap_irq_close-Gains rx_irq _ w w₂ g₂))
          λ tx_irq w₂ g₂.
            let port = plane_port ih core_id buf_count i rx_irq tx_irq in
            assign_ports-Balanced core_id buf_count list (i + 1) (assigned ++ port ∷ []) w w₂ (
              Gains-same _ _ w w₂ (λ r. omega (arith, ports_cost-append assigned (port ∷ []) r)) g₂)

abbrev plane_cost : ℕ → Plane → Resource → ℕ
plane_cost ih_num plane r =
    unit (memory plane.at sizeof_plane) r
    + unit (memory plane.ports_at (sizeof_port * ih_num)) r
    + ports_cost plane.ports r

ixmap_plane_alloc-Balanced :
    (ih_list : List Handle) (buf_count core_id : ℕ) (w : World)
    → Balanced (plane_cost (length ih_list)) w (ixmap_plane_alloc ih_list buf_count core_id w)
unfolding ixmap_plane_alloc
ixmap_plane_alloc-Balanced ih_list buf_count core_id w =
    let result = plane_cost (length ih_list) in
    acquire-attempt result nothing w w _ (λ at. memory at sizeof_plane) _ (Gains-self w) (λ w₁ g. g)
      λ at w₁ g₁.
        let undo = release-Gains (memory at sizeof_plane) nothing w in
        acquire-attempt result _ w w₁ _ (λ at. memory at (sizeof_port * length ih_list)) _ g₁ undo
          λ ports_at w₂ g₂.
            let undo_both = λ (w' : World) (g : Gains _ w w').
              undo _ (release-Gains (memory ports_at (sizeof_port * length ih_list)) _ w w' g) in
            Balanced-attempt result _ w w₂ _ ports_cost _ _
              (assign_ports-Balanced core_id buf_count ih_list 0 [] w₂ w₂ (Gains-self w₂)) g₂
              undo_both λ ports w₃ g₃. Gains-same _ _ w w₃ (λ r. omega arith) g₃

ixmap_plane_release-Gains :
    (ih_num : ℕ) (plane : Plane) (kept : Resource → ℕ) (w w' : World)
    → Gains (λ r. plane_cost ih_num plane r + kept r) w w'
    → Gains kept w (ixmap_plane_release plane ih_num w')
unfolding ixmap_plane_release
ixmap_plane_release-Gains ih_num plane kept w w' g =
    release-Gains (memory plane.at sizeof_plane) kept w _ (
      release-Gains (memory plane.ports_at (sizeof_port * ih_num)) _ w _
        (close_ports-Gains plane.ports _ w w' (Gains-same _ _ w w' (λ r. omega arith) g)))

ixmap_irq_setaffinity-Succeeds :
    (vector core_id n : ℕ) (w : World)
    → Ready (suc (suc n)) w
    → Succeeds n (ixmap_irq_setaffinity vector core_id w)
unfolding ixmap_irq_setaffinity
ixmap_irq_setaffinity-Succeeds vector core_id n w h =
    acquire-attempt-Succeeds stream (suc n) n w _ _ h λ f w₁ h₁.
      ask-attempt-Succeeds n n
        (note (smp_affinity vector (mask_high core_id) (mask_low core_id)) w₁) _ _ h₁
        λ ret w₂ h₂. release-Ready n (stream f) w₂ h₂

-- The answers that ixmap_irq_open asks for, before `n` others.
abbrev irq_answers : ℕ → ℕ
irq_answers n = suc (suc (suc (suc (suc n))))

ixmap_irq_open-Succeeds :
    (ih : Handle) (core_id : ℕ) (type : IrqKind) (n : ℕ) (w : World)
    → core_id < ih.num_queues
    → Ready (irq_answers n) w
    → Succeeds n (ixmap_irq_open ih core_id type w)
unfolding ixmap_irq_open
ixmap_irq_open-Succeeds ih core_id type n w lt h =
    let known : leb ih.num_queues core_id ≡ false = ground arith in
    rw known (
      acquire-attempt-Succeeds file (suc (suc (suc (suc n)))) n w _ _ h λ efd w₁ h₁.
        ask-attempt-Succeeds (suc (suc (suc n))) n (note (irq_req ih.fd type core_id efd) w₁) _ _ h₁
          λ vector w₂ h₂.
            attempt-Succeeds (suc n) n _ _ _
              (ixmap_irq_setaffinity-Succeeds vector core_id (suc n) w₂ h₂)
              λ ret w₃ h₃.
                acquire-attempt-Succeeds (λ at. memory at sizeof_irq_handle) n n w₃ _ _ h₃
                  λ at w₄ h₄. h₄)

-- The answers that the ports of the handles ask for, before `n` others.
abbrev pub port_answers : List Handle → ℕ → ℕ
port_answers [] n = n
port_answers (ih ∷ list) n = irq_answers (irq_answers (port_answers list n))

assign_ports-Succeeds :
    (core_id buf_count : ℕ) (list : List Handle) (i : ℕ) (assigned : List PlanePort) (n : ℕ)
    (w : World)
    → All (λ (ih : Handle). core_id < ih.num_queues) list
    → Ready (port_answers list n) w
    → Succeeds n (assign_ports core_id buf_count list i assigned w)
unfolding assign_ports
assign_ports-Succeeds core_id buf_count [] i assigned n w lt h = h
assign_ports-Succeeds core_id buf_count (ih ∷ list) i assigned n w lt h =
    let after = port_answers list n in
    attempt-Succeeds (irq_answers after) n _ _ _
      (ixmap_irq_open-Succeeds ih core_id irq_rx (irq_answers after) w lt.0 h)
      λ rx_irq w₁ h₁.
        attempt-Succeeds after n _ _ _ (ixmap_irq_open-Succeeds ih core_id irq_tx after w₁ lt.0 h₁)
          λ tx_irq w₂ h₂. assign_ports-Succeeds core_id buf_count list (i + 1) _ n w₂ lt.1 h₂

-- ixmap_plane_alloc succeeds if the core has a queue on every device and all requests to the
-- system, 2 and 10 for each device, are answered; the answers behind them are left.
pub ixmap_plane_alloc-Succeeds :
    (ih_list : List Handle) (buf_count core_id n : ℕ) (w : World)
    → All (λ (ih : Handle). core_id < ih.num_queues) ih_list
    → Ready (suc (suc (port_answers ih_list n))) w
    → Succeeds n (ixmap_plane_alloc ih_list buf_count core_id w)
unfolding ixmap_plane_alloc
ixmap_plane_alloc-Succeeds ih_list buf_count core_id n w lt h =
    let after = port_answers ih_list n in
    acquire-attempt-Succeeds (λ at. memory at sizeof_plane) (suc after) n w _ _ h
      λ at w₁ h₁.
        acquire-attempt-Succeeds (λ at. memory at (sizeof_port * length ih_list)) after n w₁ _ _ h₁
          λ ports_at w₂ h₂.
            attempt-Succeeds n n _ _ _
              (assign_ports-Succeeds core_id buf_count ih_list 0 [] n w₂ lt h₂) λ ports w₃ h₃. h₃

-- ixmap_plane_alloc that fails, at whatever step, holds what was held before and gives nothing back
-- that it did not take; if it succeeds and what runs since takes `kept`, ixmap_plane_release gives
-- back all that it took and leaves `kept`.
pub ixmap_plane_alloc-Returns :
    (ih_list : List Handle) (buf_count core_id : ℕ) (kept : Resource → ℕ) (later : World → World)
    (w : World)
    → ((w' : World) → Gains kept w' (later w'))
    → Returns
        (λ plane. ixmap_plane_release plane (length ih_list))
        kept
        later
        w
        (ixmap_plane_alloc ih_list buf_count core_id w)
ixmap_plane_alloc-Returns ih_list buf_count core_id kept later w h =
    Balanced-Returns (plane_cost (length ih_list))
      (λ plane. ixmap_plane_release plane (length ih_list)) kept kept later w _
      (λ plane. ixmap_plane_release-Gains (length ih_list) plane kept) h
      (ixmap_plane_alloc-Balanced ih_list buf_count core_id w)
