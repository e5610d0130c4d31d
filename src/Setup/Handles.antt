-- ===== src/Setup/Handles.antt =====
-- ixmap_open and ixmap_close (lib/ixmap.c): what is lost when a device cannot be opened.
use ixmap.Base.{ℕ, ◌+◌, ◌*◌, ◌<◌, ◌≡◌, ◌⊎◌, inl, inr, Option, none, some, arith}
use ixmap.Setup.{
  Resource, memory, region, file, same, unit, World, info_req, up_req, note, release, HandleRing,
}
use ixmap.Setup.Balance.{
  Gains, nothing, Gains-self, Gains-same, Gains-trans, release-Gains, give-Gains, attempt-Step,
  acquire-Step, ask-Step, stray, release-stray,
}
use ixmap.Setup.Open.{
  InfoReq, OpenArgs, OpenHandle, sizeof_handle, sizeof_ring, lesser, queues_of, ixmap_open,
  ixmap_close,
}

abbrev open_cost : OpenHandle → Resource → ℕ
open_cost opened r =
    let ih = opened.handle in
    unit (memory ih.tx_array (sizeof_ring * ih.num_queues)) r
    + unit (memory ih.rx_array (sizeof_ring * ih.num_queues)) r
    + unit (region ih.bar ih.bar_size) r
    + unit (file ih.fd) r
    + unit (memory opened.at sizeof_handle) r

-- A failed call lost nothing, or the mapping of the registers, after it gave back one that it did
-- not have.
abbrev pub Lost : ℕ → World → World → Type 0
Lost mmio_size w w' =
    Gains nothing w w' ⊎ ((bar : ℕ) × Gains (unit (region bar mmio_size)) (stray w) w')

Opened : ℕ → World → Option OpenHandle × World → Type 0
Opened mmio_size w (none, w') = Lost mmio_size w w'
Opened mmio_size w (some opened, w') = Gains (open_cost opened) w w'

-- The error path behind the mapping: `bar_size` is still 0.
lost_mapping :
    (bar mmio_size at fd : ℕ) (w w' : World)
    → 0 < mmio_size
    → w.live (region bar 0) ≡ 0
    → Gains
        (λ r.
          unit (region bar mmio_size) r
          + (unit (file fd) r + (unit (memory at sizeof_handle) r + 0)))
        w
        w'
    → Gains
        (unit (region bar mmio_size))
        (stray w)
        (release (memory at sizeof_handle) (release (file fd) (release (region bar 0) w')))
unfolding same
lost_mapping bar mmio_size at fd w w' size none_empty g =
    let absent : w'.live (region bar 0) ≡ 0 = ground (arith, g.1 (region bar 0), none_empty) in
    release-Gains (memory at sizeof_handle) _ (stray w) _ (
      give-Gains (file fd) _ _ (stray w) _ (λ r. omega arith)
        (release-stray (region bar 0) _ w w' absent g))

ixmap_open-Opened :
    (args : OpenArgs) (info : InfoReq) (blank : ℕ → HandleRing) (w : World)
    → 0 < info.mmio_size
    → ((bar : ℕ) → w.live (region bar 0) ≡ 0)
    → Opened info.mmio_size w (ixmap_open args info blank w)
unfolding ixmap_open Opened
ixmap_open-Opened args info blank w size none_empty =
    let P = Opened info.mmio_size w in
    let rate = lesser args.intr_rate info.max_interrupt_rate in
    let queues = queues_of args info in
    let array = λ (at : ℕ). memory at (sizeof_ring * queues) in
    attempt-Step P nothing _ w _ _ _
      (acquire-Step (λ at. memory at sizeof_handle) nothing w w (Gains-self w)) (λ w' g. inl g)
      λ at w₁ g₁.
        let undo = release-Gains (memory at sizeof_handle) nothing w in
        attempt-Step P _ _ w _ _ _ (acquire-Step file _ w w₁ g₁) (λ w' g. inl (undo w' g))
          λ fd w₂ g₂.
            let kept =
              λ (r : Resource). unit (file fd) r + (unit (memory at sizeof_handle) r + 0) in
            let undo₂ =
              λ (w' : World) (g : Gains kept w w'). undo _ (release-Gains (file fd) _ w w' g) in
            let again = λ (w' : World) (g : Gains (λ r. 0 + kept r) w w').
              Gains-same (λ r. 0 + kept r) kept w w' (λ r. omega arith) g in
            attempt-Step P kept _ w _ _ _ (ask-Step kept w (note (info_req fd) w₂) g₂)
              (λ w' g. inl (undo₂ w' g))
              λ ret w₃ g₃.
                attempt-Step P kept _ w _ _ _
                  (ask-Step kept w (note (up_req fd rate queues) w₃) (again w₃ g₃))
                  (λ w' g. inl (undo₂ w' g))
                  λ ret w₄ g₄.
                    attempt-Step P kept _ w _ _ _
                      (acquire-Step (λ bar. region bar info.mmio_size) kept w w₄ (again w₄ g₄))
                      (λ w' g. inl (undo₂ w' g))
                      λ bar w₅ g₅.
                        let lost = lost_mapping bar info.mmio_size at fd w in
                        attempt-Step P _ _ w _ _ _ (acquire-Step array _ w w₅ g₅)
                          (λ w' g. inr (bar, lost w' size (none_empty bar) g))
                          λ rx_array w₆ g₆.
                            attempt-Step P _ _ w _ _ _ (acquire-Step array _ w w₆ g₆)
                              (λ w' g. inr (
                                bar,
                                lost _ size (none_empty bar)
                                    (release-Gains (array rx_array) _ w w' g),
                              ))
                              λ tx_array w₇ g₇. Gains-same _ _ w w₇ (λ r. omega arith) g₇

ixmap_close-Gains :
    (opened : OpenHandle) (kept : Resource → ℕ) (w w' : World)
    → Gains (λ r. open_cost opened r + kept r) w w'
    → Gains kept w (ixmap_close opened w')
unfolding ixmap_close
ixmap_close-Gains opened kept w w' g =
    let ih = opened.handle in
    release-Gains (memory opened.at sizeof_handle) kept w _ (
      release-Gains (file ih.fd) _ w _ (
        release-Gains (region ih.bar ih.bar_size) _ w _ (
          release-Gains (memory ih.rx_array (sizeof_ring * ih.num_queues)) _ w _ (
            give-Gains (memory ih.tx_array (sizeof_ring * ih.num_queues)) _ _ w w'
              (λ r. omega arith) g))))

-- What ixmap_open leaves, and ixmap_close behind it once `later` has run.
abbrev pub OpenReturns :
    ℕ → (Resource → ℕ) → (World → World) → World → Option OpenHandle × World → Type 0
OpenReturns mmio_size kept later w (none, w') = Lost mmio_size w w'
OpenReturns mmio_size kept later w (some opened, w') = Gains kept w (ixmap_close opened (later w'))

OpenReturns-if :
    (mmio_size : ℕ) (kept : Resource → ℕ) (later : World → World) (w : World)
    (r : Option OpenHandle × World)
    → ((w' : World) → Gains kept w' (later w'))
    → Opened mmio_size w r
    → OpenReturns mmio_size kept later w r
unfolding Opened
OpenReturns-if mmio_size kept later w (none, w') h o = o
OpenReturns-if mmio_size kept later w (some opened, w') h o =
    ixmap_close-Gains opened kept w (later w') (
      Gains-same _ _ w (later w') (λ r. omega arith)
        (Gains-trans (open_cost opened) kept w w' (later w') o (h w')))

-- If the card has registers and no empty mapping is held, ixmap_open that fails holds what was held
-- before, or else it lost the mapping of the registers and tried to undo an empty one; if it
-- succeeds and what runs since takes `kept`, ixmap_close gives back all that it took and leaves
-- `kept`.
pub ixmap_open-OpenReturns :
    (args : OpenArgs) (info : InfoReq) (blank : ℕ → HandleRing) (kept : Resource → ℕ)
    (later : World → World) (w : World)
    → 0 < info.mmio_size
    → ((bar : ℕ) → w.live (region bar 0) ≡ 0)
    → ((w' : World) → Gains kept w' (later w'))
    → OpenReturns info.mmio_size kept later w (ixmap_open args info blank w)
ixmap_open-OpenReturns args info blank kept later w size none_empty h =
    OpenReturns-if info.mmio_size kept later w _ h
      (ixmap_open-Opened args info blank w size none_empty)
