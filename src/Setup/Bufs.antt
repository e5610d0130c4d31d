-- ===== src/Setup/Bufs.antt =====
-- The packet memory of a core (lib/ixmap.c): nothing that is taken is lost.
use ixmap.Base.{
  ℕ, suc, ◌+◌, ◌*◌, ◌≡◌, refl, sym, ap, subst, ◌∙◌, append_assoc, List, [], ◌∷◌, ◌++◌, length,
  arith,
}
use ixmap.Setup.{
  Resource, memory, region, mapping, unit, World, map_req, note, Handle, sizeof_ulong,
  ixmap_dma_map,
}
use ixmap.Setup.Balance.{
  Gains, nothing, Balanced, Gains-self, Gains-same, release-Gains, give-Gains, Balanced-attempt,
  acquire-attempt, Returns, Balanced-Returns,
}
use ixmap.Setup.Answers.{Ready, Succeeds, attempt-Succeeds, acquire-attempt-Succeeds}
use ixmap.Setup.Buf.{
  PacketBuf, sizeof_buf, region_size, slots_size, unmap_ports, map_ports, ixmap_buf_alloc,
  ixmap_buf_release,
}

-- The mappings of a region for the devices, as far as there are addresses.
abbrev pub maps_cost : List Handle → List ℕ → Resource → ℕ
maps_cost [] addr_dma r = 0
maps_cost (ih ∷ handles) [] r = 0
maps_cost (ih ∷ handles) (addr ∷ addr_dma) r =
    unit (mapping ih.fd addr) r + maps_cost handles addr_dma r

unmap_ports-Gains :
    (handles : List Handle) (addr_dma : List ℕ) (kept : Resource → ℕ) (w w' : World)
    → Gains (λ r. maps_cost handles addr_dma r + kept r) w w'
    → Gains kept w (unmap_ports handles addr_dma w')
unfolding unmap_ports
unmap_ports-Gains [] addr_dma kept w w' g = Gains-same _ _ w w' (λ r. omega arith) g
unmap_ports-Gains (ih ∷ handles) [] kept w w' g = Gains-same _ _ w w' (λ r. omega arith) g
unmap_ports-Gains (ih ∷ handles) (addr ∷ addr_dma) kept w w' g =
    unmap_ports-Gains handles addr_dma kept w _
      (release-Gains (mapping ih.fd addr) _ w w' (Gains-same _ _ w w' (λ r. omega arith) g))

maps_cost_none : (handles : List Handle) (r : Resource) → maps_cost handles [] r ≡ 0
maps_cost_none [] r = refl
maps_cost_none (ih ∷ handles) r = refl

-- One more address, for the next of the handles.
maps_cost-append :
    (before : List Handle) (ih : Handle) (list : List Handle) (mapped : List ℕ) (addr : ℕ)
    (r : Resource)
    → length mapped ≡ length before
    → maps_cost (before ++ ih ∷ list) (mapped ++ addr ∷ []) r
      ≡ unit (mapping ih.fd addr) r + maps_cost (before ++ ih ∷ list) mapped r
maps_cost-append [] ih list [] addr r h = omega (arith, maps_cost_none list r)
maps_cost-append [] ih list (a ∷ mapped) addr r h = absurd (omega arith)
maps_cost-append (b ∷ before) ih list [] addr r h = absurd (omega arith)
maps_cost-append (b ∷ before) ih list (a ∷ mapped) addr r h =
    omega (arith, maps_cost-append before ih list mapped addr r (omega arith))

length-append_one {ℓ} : {A : Type ℓ} (xs : List A) (x : A) → length (xs ++ x ∷ []) ≡ suc (length xs)
length-append_one [] x = refl
length-append_one (y ∷ xs) x = ap suc (length-append_one xs x)

-- `before` are the handles that the loop has passed.
map_ports-Balanced :
    (ih_list before : List Handle) (addr_virt size : ℕ) (list : List Handle) (mapped : List ℕ)
    (w w' : World)
    → before ++ list ≡ ih_list
    → length mapped ≡ length before
    → Gains (maps_cost ih_list mapped) w w'
    → Balanced (maps_cost ih_list) w (map_ports ih_list addr_virt size list mapped w')
unfolding map_ports ixmap_dma_map
map_ports-Balanced ih_list before addr_virt size [] mapped w w' e len g = g
map_ports-Balanced ih_list before addr_virt size (ih ∷ list) mapped w w' e len g =
    acquire-attempt (maps_cost ih_list) (maps_cost ih_list mapped) w
      (note (map_req ih.fd addr_virt size) w') _ (λ addr. mapping ih.fd addr) _ g
      (λ w₁ g.
        unmap_ports-Gains ih_list mapped nothing w w₁ (Gains-same _ _ w w₁ (λ r. omega arith) g))
      λ addr w₁ g₁.
        let more = λ (r : Resource).
          subst
            (λ hs.
              maps_cost hs (mapped ++ addr ∷ []) r
              ≡ unit (mapping ih.fd addr) r + maps_cost hs mapped r)
            e (maps_cost-append before ih list mapped addr r len) in
        map_ports-Balanced ih_list (before ++ ih ∷ []) addr_virt size list (mapped ++ addr ∷ []) w
          w₁ (append_assoc before (ih ∷ []) list ∙ e)
          (omega (arith, length-append_one mapped addr, length-append_one before ih))
          (Gains-same _ _ w w₁ (λ r. sym (more r)) g₁)

abbrev buf_cost : List Handle → PacketBuf → Resource → ℕ
buf_cost ih_list buf r =
    unit (memory buf.at sizeof_buf) r
    + unit (memory buf.addr_dma_at (sizeof_ulong * length ih_list)) r
    + unit (region buf.addr_virt (region_size (length ih_list) buf.count buf.buf_size)) r
    + maps_cost ih_list buf.addr_dma r
    + unit (memory buf.slots_at (slots_size (length ih_list) buf.count)) r

ixmap_buf_alloc-Balanced :
    (ih_list : List Handle) (count buf_size : ℕ) (w : World)
    → Balanced (buf_cost ih_list) w (ixmap_buf_alloc ih_list count buf_size w)
unfolding ixmap_buf_alloc
ixmap_buf_alloc-Balanced ih_list count buf_size w =
    let ih_num = length ih_list in
    let size = region_size ih_num count buf_size in
    let result = buf_cost ih_list in
    acquire-attempt result nothing w w _ (λ at. memory at sizeof_buf) _ (Gains-self w) (λ w₁ g. g)
      λ at w₁ g₁.
        let undo = release-Gains (memory at sizeof_buf) nothing w in
        acquire-attempt result _ w w₁ _ (λ addr. memory addr (sizeof_ulong * ih_num)) _ g₁ undo
          λ addr_dma_at w₂ g₂.
            let undo₂ = λ (w' : World) (g : Gains _ w w').
              undo _ (release-Gains (memory addr_dma_at (sizeof_ulong * ih_num)) _ w w' g) in
            acquire-attempt result _ w w₂ _ (λ addr. region addr size) _ g₂ undo₂
              λ addr_virt w₃ g₃.
                let undo₃ = λ (w' : World) (g : Gains _ w w').
                  undo₂ _ (release-Gains (region addr_virt size) _ w w' g) in
                Balanced-attempt result _ w w₃ _ (maps_cost ih_list) _ _
                  (map_ports-Balanced ih_list [] addr_virt size ih_list [] w₃ w₃ refl refl
                    (Gains-same _ _ w₃ w₃ (λ r. sym (maps_cost_none ih_list r)) (Gains-self w₃)))
                  g₃ undo₃
                  λ addr_dma w₄ g₄.
                    acquire-attempt result _ w w₄ _ (λ addr. memory addr (slots_size ih_num count))
                      _ g₄ (λ w' g. undo₃ _ (unmap_ports-Gains ih_list addr_dma _ w w' g))
                      λ slots_at w₅ g₅. Gains-same _ _ w w₅ (λ r. omega arith) g₅

ixmap_buf_release-Gains :
    (ih_list : List Handle) (kept : Resource → ℕ) (buf : PacketBuf) (w w' : World)
    → Gains (λ r. buf_cost ih_list buf r + kept r) w w'
    → Gains kept w (ixmap_buf_release buf ih_list w')
unfolding ixmap_buf_release
ixmap_buf_release-Gains ih_list kept buf w w' g =
    let ih_num = length ih_list in
    release-Gains (memory buf.at sizeof_buf) kept w _ (
      release-Gains (memory buf.addr_dma_at (sizeof_ulong * ih_num)) _ w _ (
        release-Gains (region buf.addr_virt (region_size ih_num buf.count buf.buf_size)) _ w _ (
          unmap_ports-Gains ih_list buf.addr_dma _ w _ (
            give-Gains (memory buf.slots_at (slots_size ih_num buf.count)) _ _ w w'
              (λ r. omega arith) g))))

-- ixmap_buf_alloc that fails, at whatever step, holds what was held before and gives nothing back
-- that it did not take; if it succeeds and what runs since takes `kept`, ixmap_buf_release gives back
-- all that it took and leaves `kept`.
ixmap_buf_alloc-Returns :
    (ih_list : List Handle) (count buf_size : ℕ) (kept : Resource → ℕ) (later : World → World)
    (w : World)
    → ((w' : World) → Gains kept w' (later w'))
    → Returns
        (λ buf. ixmap_buf_release buf ih_list)
        kept
        later
        w
        (ixmap_buf_alloc ih_list count buf_size w)
ixmap_buf_alloc-Returns ih_list count buf_size kept later w h =
    Balanced-Returns (buf_cost ih_list) (λ buf. ixmap_buf_release buf ih_list) kept kept later w _
      (ixmap_buf_release-Gains ih_list kept) h (ixmap_buf_alloc-Balanced ih_list count buf_size w)

-- The answers that the mappings for the handles ask for, before `n` others.
abbrev pub map_answers : List Handle → ℕ → ℕ
map_answers [] n = n
map_answers (ih ∷ list) n = suc (map_answers list n)

map_ports-Succeeds :
    (ih_list : List Handle) (addr_virt size : ℕ) (list : List Handle) (mapped : List ℕ) (n : ℕ)
    (w : World)
    → Ready (map_answers list n) w
    → Succeeds n (map_ports ih_list addr_virt size list mapped w)
unfolding map_ports ixmap_dma_map
map_ports-Succeeds ih_list addr_virt size [] mapped n w h = h
map_ports-Succeeds ih_list addr_virt size (ih ∷ list) mapped n w h =
    acquire-attempt-Succeeds (λ addr. mapping ih.fd addr) (map_answers list n) n
      (note (map_req ih.fd addr_virt size) w) _ _ h
      λ addr w₁. map_ports-Succeeds ih_list addr_virt size list _ n w₁

-- ixmap_buf_alloc succeeds if all its requests to the system, 4 and one for each device, are
-- answered; the answers behind them are left.
ixmap_buf_alloc-Succeeds :
    (ih_list : List Handle) (count buf_size n : ℕ) (w : World)
    → Ready (suc (suc (suc (map_answers ih_list (suc n))))) w
    → Succeeds n (ixmap_buf_alloc ih_list count buf_size w)
unfolding ixmap_buf_alloc
ixmap_buf_alloc-Succeeds ih_list count buf_size n w h =
    let ih_num = length ih_list in
    let after = map_answers ih_list (suc n) in
    let size = region_size ih_num count buf_size in
    acquire-attempt-Succeeds (λ at. memory at sizeof_buf) (suc (suc after)) n w _ _ h
      λ at w₁ h₁.
        acquire-attempt-Succeeds (λ addr. memory addr (sizeof_ulong * ih_num)) (suc after) n w₁ _ _
          h₁
          λ addr_dma_at w₂ h₂.
            acquire-attempt-Succeeds (λ addr. region addr size) after n w₂ _ _ h₂
              λ addr_virt w₃ h₃.
                attempt-Succeeds (suc n) n _ _ _
                  (map_ports-Succeeds ih_list addr_virt size ih_list [] (suc n) w₃ h₃)
                  λ addr_dma w₄ h₄.
                    acquire-attempt-Succeeds (λ addr. memory addr (slots_size ih_num count)) n n w₄
                      _ _ h₄ λ slots_at w₅ h₅. h₅
