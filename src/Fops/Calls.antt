-- ===== src/Fops/Calls.antt =====
-- The commands of kmod/ixmap_fops.c on a sound adapter: none fails, and the adapter stays sound.
use ixmap.Base.{
  ℕ, ◌≡◌, ◌≢◌, ◌∙◌, refl, sym, ap, subst, List, Bool, true, false, Option, none, some, arith, ltb,
  ◌==◌, ◌%◌, ◌^◌, if◌then◌else◌, ◌||◌, Bool-cases, Option-cases, inl, inr, if_true, if_false,
}
use ixmap.Hw.{Regs, max_eitr}
use ixmap.Dma.{Area, MapCalls, ixmap_dma_map, ixmap_dma_unmap}
use ixmap.Adapter.{max_rss_indices, Adapter, MacOps, MsixCalls, IrqType, Assigned, ixmap_reset}
use ixmap.Dma.Mapping.{ixmap_dma_map-Balanced}
use ixmap.Adapter.Grants.{Grants, Grants-frame}
use ixmap.Adapter.Life.{
  IsSound, IsReady, InBounds, HasIrqs-frame, ixmap_down-IsIdle, ixmap_up-granted,
}
use ixmap.Adapter.Assign.{Serves, ixmap_irq_assign-HasIrqs}
use ixmap.Fops.{
  Status, already, success, Reply, nothing, Outcome, UpReq, Command, get_info, up, map, unmap, down,
  reset, check_link, irq, other, note_link, unmap_area, finish_map, finish_irq, find_link,
  ixmap_cmd_info, ixmap_cmd_unmap, ixmap_cmd_map, ixmap_cmd_irq, ixmap_cmd_up, ixmap_cmd_down,
  ixmap_cmd_reset, ixmap_cmd_check_link, ixmap_ioctl,
}

-- What a process may ask for: the kernel grants the interrupts of an `up`; an interrupt is assigned
-- while the device is up, to an index other than the number of queues; the registers' own area is
-- left alone, and the kernel gives no other area its address.
abbrev pub Allowed : Command → Adapter → Type 0
Allowed (up req calls) a =
    Grants calls (record a { num_rx_queues = req.num_rx_queues; num_tx_queues = req.num_tx_queues })
Allowed (map size calls) a = calls.addr_dma ≢ a.iobase
Allowed (unmap addr_dma) a = addr_dma ≢ a.iobase
Allowed (irq type i ctx) a = (a.up ≡ true) × Serves type i a
Allowed get_info a = Unit
Allowed down a = Unit
Allowed reset a = Unit
Allowed check_link a = Unit
Allowed other a = Unit

-- The call returns, the adapter is sound, and who uses it is as it was.
abbrev pub Fine : Adapter → Outcome → Type 0
Fine a result =
    (status : Status) × (reply : Reply) × (a' : Adapter) × (result ≡ some (status, reply, a'))
    × IsSound a'
    × (a'.refcount ≡ a.refcount)
    × (a'.iobase ≡ a.iobase)

IsSound-frame :
    (a : Adapter) (regs : Regs) (areas : List Area) (speed duplex : ℕ)
    → IsSound a
    → IsSound (record a { regs = regs; areas = areas; link_speed = speed; link_duplex = duplex })
IsSound-frame a regs areas speed duplex (r, ready) = (r, frame a.up ready)
  where
    frame :
        (b : Bool)
        → IsReady b a
        → IsReady b
            (record a { regs = regs; areas = areas; link_speed = speed; link_duplex = duplex })
    frame true (bounds, has) =
        (bounds, HasIrqs-frame a a.up a.registers a.refcount regs areas speed duplex has)
    frame false idle = idle

unchanged :
    (a : Adapter) (status : Status) (reply : Reply) → IsSound a → Fine a (some (status, reply, a))
unchanged a status reply s = (status, reply, a, refl, s, refl, refl)

Fine-if :
    (a : Adapter) (b : Bool) (x y : Outcome)
    → (b ≡ true → Fine a x)
    → (b ≡ false → Fine a y)
    → Fine a (if b then x else y)
Fine-if a true x y p q = p refl
Fine-if a false x y p q = q refl

Fine-trans :
    (a b : Adapter) (result : Outcome)
    → b.refcount ≡ a.refcount
    → b.iobase ≡ a.iobase
    → Fine b result
    → Fine a result
Fine-trans a b result refs base (status, reply, c, run, sound, refs', base') =
    (status, reply, c, run, sound, refs' ∙ refs, base' ∙ base)

-- ixmap_dma_map returns the address that the kernel mapped.
map_addr :
    (calls : MapCalls) (size : ℕ) (areas : List Area) (x : ℕ)
    → (ixmap_dma_map calls size areas).addr ≡ some x
    → x ≡ calls.addr_dma
map_addr calls size areas x e =
    let kept = rw e at (ixmap_dma_map-Balanced calls size areas) in kept.0

Fine-info : (copied : Bool) (a : Adapter) → IsSound a → Fine a (ixmap_cmd_info copied a)
unfolding ixmap_cmd_info
Fine-info true a s = unchanged a _ _ s
Fine-info false a s = unchanged a _ _ s

Fine-unmap_area :
    (missing unmapped : Status) (addr : ℕ) (a : Adapter)
    → addr ≢ a.iobase
    → IsSound a
    → Fine a (unmap_area missing unmapped addr a)
unfolding unmap_area
Fine-unmap_area missing unmapped addr a n s =
    let away : (addr == a.iobase) ≡ false = ground arith in
    elim (Option-cases (ixmap_dma_unmap a.iobase a.areas addr)) [
      | inl e ↦ rw (unmap_area, e) (unchanged a _ _ s)
      | inr ((areas, back), e) ↦
          rw (unmap_area, e, away)
            (_, _, _, refl, IsSound-frame a a.regs areas a.link_speed a.link_duplex s, refl, refl)
    ]

Fine-unmap :
    (copied : Bool) (addr : ℕ) (a : Adapter)
    → addr ≢ a.iobase
    → IsSound a
    → Fine a (ixmap_cmd_unmap copied addr a)
unfolding ixmap_cmd_unmap
Fine-unmap copied addr a n s =
    Fine-if a copied _ _ (λ e. Fine-unmap_area _ _ addr a n s) (λ e. unchanged a _ _ s)

Fine-irq :
    (copied_in copied_out : Bool) (type : IrqType) (i : ℕ) (ctx : Option ℕ) (a : Adapter)
    → a.up ≡ true
    → Serves type i a
    → IsSound a
    → Fine a (ixmap_cmd_irq copied_in copied_out type i ctx a)
unfolding ixmap_cmd_irq
Fine-irq false copied_out type i ctx a u serves s = unchanged a _ _ s
Fine-irq true copied_out type i ctx a u serves (r, ready) =
    let (bounds, has) = subst (λ b. IsReady b a) u ready in
    let (result, a', run, has', same) = ixmap_irq_assign-HasIrqs type i ctx a has serves in
    let sound : IsSound a' = (
      ap (λ (x : Adapter). x.registers) same ∙ r,
      subst (λ b. IsReady b a') (sym (ap (λ (x : Adapter). x.up) same ∙ u))
          (subst InBounds (sym same) bounds, has'),
    ) in
    let refs = ap (λ (x : Adapter). x.refcount) same in
    let base = ap (λ (x : Adapter). x.iobase) same in
    rw (ixmap_cmd_irq, run) (finished copied_out result a' sound refs base)
  where
    finished :
        (copied : Bool) (result : Assigned) (b : Adapter)
        → IsSound b
        → b.refcount ≡ a.refcount
        → b.iobase ≡ a.iobase
        → Fine a (finish_irq copied result b)
    finished copied none b s refs base = (_, _, _, refl, s, refs, base)
    finished true (some (v, entry)) b s refs base = (_, _, _, refl, s, refs, base)
    finished false (some (v, entry)) b s refs base = (_, _, _, refl, s, refs, base)

Fine-map :
    (copied_in copied_out : Bool) (size : ℕ) (calls : MapCalls) (a : Adapter)
    → calls.addr_dma ≢ a.iobase
    → IsSound a
    → Fine a (ixmap_cmd_map copied_in copied_out size calls a)
unfolding ixmap_cmd_map
Fine-map copied_in copied_out size calls a n s =
    let m = ixmap_dma_map calls size a.areas in
    let b : Adapter = record a { areas = m.areas } in
    let sound : IsSound b = IsSound-frame a a.regs m.areas a.link_speed a.link_duplex s in
    Fine-if a copied_in _ _
      (λ _.
        Fine-if a (size == 0) _ _ (λ _. unchanged a _ _ s)
          (λ _.
            finished m.addr b sound refl refl
              (λ x e. subst (λ y. y ≢ a.iobase) (sym (map_addr calls size a.areas x e)) n)))
      (λ _. unchanged a _ _ s)
  where
    finished :
        (addr : Option ℕ) (b : Adapter)
        → IsSound b
        → b.refcount ≡ a.refcount
        → b.iobase ≡ a.iobase
        → ((x : ℕ) → addr ≡ some x → x ≢ b.iobase)
        → Fine a (finish_map copied_out addr b)
    finished none b s refs base m = (_, _, _, refl, s, refs, base)
    finished (some x) b s refs base m =
        Fine-if a (x == 0) _ _ (λ _. (_, _, _, refl, s, refs, base))
          (λ _.
            Fine-if a copied_out _ _ (λ _. (_, _, _, refl, s, refs, base))
              (λ _. Fine-trans a b _ refs base (Fine-unmap_area _ _ x b (m x refl) s)))

-- After `down` the device is down.
abbrev pub Stopped : Adapter → Outcome → Type 0
Stopped a result =
    (status : Status) × (reply : Reply) × (a' : Adapter) × (result ≡ some (status, reply, a'))
    × IsSound a'
    × (a'.refcount ≡ a.refcount)
    × (a'.iobase ≡ a.iobase)
    × (a'.up ≡ false)

note_link-IsSound :
    (speed : ℕ) (link_up : Bool) (a : Adapter)
    → IsSound a
    → IsSound (note_link speed link_up a).0
      × ((note_link speed link_up a).0.refcount ≡ a.refcount)
      × ((note_link speed link_up a).0.iobase ≡ a.iobase)
unfolding note_link
note_link-IsSound speed true a s = elim (Bool-cases (a.link_speed == 0)) [
  | inl e ↦ rw e (IsSound-frame a a.regs a.areas (speed % 2 ^ 16) 2 s, refl, refl)
  | inr e ↦ rw e (s, refl, refl)
]
note_link-IsSound speed false a s = elim (Bool-cases (a.link_speed == 0)) [
  | inl e ↦ rw e (s, refl, refl)
  | inr e ↦ rw e (IsSound-frame a a.regs a.areas 0 0 s, refl, refl)
]

module _ (ops : MacOps) where
  pub ixmap_cmd_down-Stopped :
      (online : Bool) (a : Adapter) → IsSound a → Stopped a (ixmap_cmd_down ops online a)
  unfolding ixmap_cmd_down
  ixmap_cmd_down-Stopped online a (r, ready) = elim (Bool-cases a.up) [
    | inr e ↦ (already, nothing, a, if_false a.up _ _ e, (r, ready), refl, refl, e)
    | inl e ↦
        let (bounds, has) = subst (λ b. IsReady b a) e ready in
        let (a', run, off, idle, same) = ixmap_down-IsIdle ops online a r has in
        let sound : IsSound a' =
          (ap (λ (x : Adapter). x.registers) same ∙ r, subst (λ b. IsReady b a') (sym off) idle) in
        (
          success,
          nothing,
          a',
          if_true a.up _ _ e ∙ rw run refl,
          sound,
          ap (λ (x : Adapter). x.refcount) same,
          ap (λ (x : Adapter). x.iobase) same,
          off,
        )
  ]

  Fine-down : (online : Bool) (a : Adapter) → IsSound a → Fine a (ixmap_cmd_down ops online a)
  Fine-down online a s =
      let (status, reply, a', run, sound, refs, base, off) = ixmap_cmd_down-Stopped online a s in
      (status, reply, a', run, sound, refs, base)

  Fine-reset : (a : Adapter) → IsSound a → Fine a (ixmap_cmd_reset ops a)
  unfolding ixmap_cmd_reset ixmap_reset
  Fine-reset a (r, ready) = elim (Bool-cases a.up) [
    | inr e ↦ (success, nothing, a, if_false a.up _ _ e, (r, ready), refl, refl)
    | inl e ↦ (
      success,
      nothing,
      record a { regs = ops.init_hw a.regs },
      if_true a.up _ _ e ∙ rw r refl,
      IsSound-frame a (ops.init_hw a.regs) a.areas a.link_speed a.link_duplex (r, ready),
      refl,
      refl,
    )
  ]

  Fine-check_link :
      (copied : Bool) (a : Adapter) → IsSound a → Fine a (ixmap_cmd_check_link ops copied a)
  unfolding ixmap_cmd_check_link note_link
  Fine-check_link copied a (r, ready) =
      let (speed, link_up) = find_link ops a in
      let (noted, flush) = note_link speed link_up a in
      let (sound, refs, base) = note_link-IsSound speed link_up a (r, ready) in
      Fine-if a a.up _ _
        (λ _.
          Fine-if a a.registers _ _
            (λ _.
              Fine-if a copied _ _ (λ _. (_, _, _, refl, sound, refs, base))
                (λ _. (_, _, _, refl, sound, refs, base)))
            (λ e. absurd (cc (e, r))))
        (λ _. unchanged a _ _ (r, ready))

  Fine-up :
      (online copied : Bool) (req : UpReq) (calls : MsixCalls) (a : Adapter)
      → Grants calls
          (record a { num_rx_queues = req.num_rx_queues; num_tx_queues = req.num_tx_queues })
      → IsSound a
      → Fine a (ixmap_cmd_up ops online copied req calls a)
  unfolding ixmap_cmd_up
  Fine-up online copied req calls a g (r, ready) =
      let asked : Adapter = record a {
        num_interrupt_rate = req.num_interrupt_rate;
        num_rx_queues = req.num_rx_queues;
        num_tx_queues = req.num_tx_queues;
      } in
      Fine-if a a.up _ _ (λ _. unchanged a _ _ (r, ready))
        (λ off.
          Fine-if a copied _ _
            (λ _.
              Fine-if a
                (ltb max_eitr req.num_interrupt_rate
                  || ltb max_rss_indices req.num_rx_queues
                  || ltb max_rss_indices req.num_tx_queues)
                _ _ (λ _. unchanged a _ _ (r, ready))
                (λ small.
                  let (rx0, tx0, rate0, idle) = subst (λ b. IsReady b a) off ready in
                  let bounds : InBounds asked = ground arith in
                  let (a', run, u, has, same) =
                    ixmap_up-granted ops calls asked (Grants-frame calls _ asked g refl refl refl) r
                      idle in
                  (
                    success,
                    nothing,
                    a',
                    rw run refl,
                    (
                      ap (λ (x : Adapter). x.registers) same ∙ r,
                      subst (λ b. IsReady b a') (sym u) (subst InBounds (sym same) bounds, has),
                    ),
                    ap (λ (x : Adapter). x.refcount) same,
                    ap (λ (x : Adapter). x.iobase) same,
                  )))
            (λ _. unchanged a _ _ (r, ready)))

  pub ixmap_ioctl-IsSound :
      (online copied_in copied_out : Bool) (command : Command) (a : Adapter)
      → IsSound a
      → Allowed command a
      → Fine a (ixmap_ioctl ops online copied_in copied_out command a)
  unfolding ixmap_ioctl
  ixmap_ioctl-IsSound online copied_in copied_out get_info a s ok = Fine-info copied_out a s
  ixmap_ioctl-IsSound online copied_in copied_out (up req calls) a s ok =
      Fine-up online copied_in req calls a ok s
  ixmap_ioctl-IsSound online copied_in copied_out (map size calls) a s ok =
      Fine-map copied_in copied_out size calls a ok s
  ixmap_ioctl-IsSound online copied_in copied_out (unmap addr) a s ok =
      Fine-unmap copied_in addr a ok s
  ixmap_ioctl-IsSound online copied_in copied_out down a s ok = Fine-down online a s
  ixmap_ioctl-IsSound online copied_in copied_out reset a s ok = Fine-reset a s
  ixmap_ioctl-IsSound online copied_in copied_out check_link a s ok = Fine-check_link copied_out a s
  ixmap_ioctl-IsSound online copied_in copied_out (irq type i ctx) a s (u, serves) =
      Fine-irq copied_in copied_out type i ctx a u serves s
  ixmap_ioctl-IsSound online copied_in copied_out other a s ok = unchanged a _ _ s
