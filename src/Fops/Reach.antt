-- ===== src/Fops/Reach.antt =====
-- The device of kmod/ixmap_fops.c under any sequence of calls of any processes, as steps: what is
-- between `down(&adapter->sem)` and `up(&adapter->sem)` is one.
use ixmap.Base.{
  ℕ, ◌+◌, ◌-◌, ◌≤◌, ◌<◌, ◌≡◌, refl, sym, ap, ◌∙◌, subst, Bool, true, false, some, arith, ◌==◌,
  Bool-cases, inl, inr,
}
use ixmap.Adapter.{Adapter, MacOps, ixmap_adapter_inuse, ixmap_adapter_put}
use ixmap.Adapter.Irqs.{nothing_held}
use ixmap.Adapter.Life.{IsSound, IsReady, HasIrqs-frame}
use ixmap.Fops.{
  Status, success, busy, Reply, Outcome, Command, ixmap_cmd_down, ixmap_ioctl, ixmap_open,
  close_down,
}
use ixmap.Fops.Calls.{Allowed, ixmap_cmd_down-Stopped, ixmap_ioctl-IsSound}

-- The adapter, its open files, and the files that were shut down but still count as users.
pub record System : Type 0 where
  pub adapter : Adapter
  pub files : ℕ
  pub closing : ℕ

module _ (ops : MacOps) where
  pub data Step (s : System) : System → Type 0 where
    open_file :
        (a : Adapter)
        → ixmap_open s.adapter ≡ (success, a)
        → Step s (record s { adapter = a; files = s.files + 1 })
    open_refused :
        (a : Adapter) → ixmap_open s.adapter ≡ (busy, a) → Step s (record s { adapter = a })
    call :
        (online copied_in copied_out : Bool) (command : Command) (status : Status) (reply : Reply)
        (a : Adapter)
        → 0 < s.files
        → Allowed command s.adapter
        → ixmap_ioctl ops online copied_in copied_out command s.adapter ≡ some (status, reply, a)
        → Step s (record s { adapter = a })
    shut :
        (online : Bool) (a : Adapter)
        → 0 < s.files
        → close_down ops online s.adapter ≡ some a
        → Step s (record { adapter = a; files = s.files - 1; closing = s.closing + 1 })
    put :
        0 < s.closing
        → Step s (record s { adapter = ixmap_adapter_put s.adapter; closing = s.closing - 1 })

  pub data Reach (s : System) : System → Type 0 where
    here : Reach s s
    next : {t u : System} → Reach s t → Step t u → Reach s u

-- As ixmap_probe leaves it: down, with the reference of the driver.
abbrev pub Probed : System → Type 0
Probed s =
    IsSound s.adapter
    × (s.adapter.up ≡ false)
    × (s.adapter.refcount ≡ 1)
    × (s.files ≡ 0)
    × (s.closing ≡ 0)

-- One user at most, a device that is up has one, and the adapter is sound.
pub record IsExclusive (s : System) : Type 0 where
  pub sound : IsSound s.adapter
  pub counted : s.adapter.refcount ≡ 1 + s.files + s.closing
  pub alone : s.files + s.closing ≤ 1
  pub owned : s.adapter.up ≡ true → s.files ≡ 1

IsSound-refcount : (a : Adapter) (n : ℕ) → IsSound a → IsSound (record a { refcount = n })
IsSound-refcount a n (r, ready) = (r, frame a.up ready)
  where
    frame : (b : Bool) → IsReady b a → IsReady b (record a { refcount = n })
    frame true (bounds, has) =
        (bounds, HasIrqs-frame a a.up a.registers n a.regs a.areas a.link_speed a.link_duplex has)
    frame false idle = idle

opened :
    (a b : Adapter)
    → ixmap_open a ≡ (success, b)
    → (a.refcount ≡ 1) × (b ≡ record a { refcount = a.refcount + 1 })
unfolding ixmap_open ixmap_adapter_inuse
opened a b e = elim (Bool-cases (a.refcount == 1)) [
  | inl free ↦ (ground arith, sym (ap (λ (p : Status × Adapter). p.1) (rw free at e)))
  | inr used ↦ absurd (cc (rw used at e))
]

refused : (a b : Adapter) → ixmap_open a ≡ (busy, b) → b ≡ a
unfolding ixmap_open ixmap_adapter_inuse
refused a b e = elim (Bool-cases (a.refcount == 1)) [
  | inl free ↦ absurd (cc (rw free at e))
  | inr used ↦ sym (ap (λ (p : Status × Adapter). p.1) (rw used at e))
]

closed :
    (online : Bool) (ops : MacOps) (a b : Adapter) (status : Status) (reply : Reply) (c : Adapter)
    → ixmap_cmd_down ops online a ≡ some (status, reply, c)
    → close_down ops online a ≡ some b
    → b ≡ c
unfolding close_down
closed online ops a b status reply c run e = cc (rw (close_down, run) at e)

outcome_eq :
    (status status' : Status) (reply reply' : Reply) (a b : Adapter)
    → ◌≡◌ {A = Outcome} (some (status, reply, a)) (some (status', reply', b))
    → b ≡ a
outcome_eq status status' reply reply' a b e = cc

module _ (ops : MacOps) where
  Step-IsExclusive : {s t : System} → Step ops s t → IsExclusive s → IsExclusive t
  Step-IsExclusive {s} (open_file a e) x =
      let (free, same) = opened s.adapter a e in
      let refs = ap (λ (y : Adapter). y.refcount) same in
      record {
        sound =
            subst IsSound (sym same) (IsSound-refcount s.adapter (s.adapter.refcount + 1) x.sound);
        counted = omega (arith, refs, x.counted, free);
        alone = omega (arith, x.counted, free);
        owned = λ u. omega (arith, x.counted, free);
      }
  Step-IsExclusive {s} (open_refused a e) x =
      let same = refused s.adapter a e in
      record {
        sound = subst IsSound (sym same) x.sound;
        counted = ap (λ (y : Adapter). y.refcount) same ∙ x.counted;
        alone = x.alone;
        owned = λ u. x.owned (ap (λ (y : Adapter). y.up) (sym same) ∙ u);
      }
  Step-IsExclusive {s} (call online i o command status reply a f ok e) x =
      let (status', reply', a', run, sound, refs, base) =
        ixmap_ioctl-IsSound ops online i o command s.adapter x.sound ok in
      let same = outcome_eq status' status reply' reply a' a (sym run ∙ e) in
      record {
        sound = subst IsSound (sym same) sound;
        counted = ap (λ (y : Adapter). y.refcount) same ∙ refs ∙ x.counted;
        alone = x.alone;
        owned = λ u. omega (arith, x.alone, f);
      }
  Step-IsExclusive {s} (shut online a f e) x =
      let (status, reply, a', run, sound, refs, base, off) =
        ixmap_cmd_down-Stopped ops online s.adapter x.sound in
      let same = closed online ops s.adapter a status reply a' run e in
      record {
        sound = subst IsSound (sym same) sound;
        counted = omega (arith, ap (λ (y : Adapter). y.refcount) same, refs, x.counted, f);
        alone = omega (arith, x.alone, f);
        owned = λ u. absurd (cc (off, u, ap (λ (y : Adapter). y.up) same));
      }
  Step-IsExclusive {s} (put f) x = record {
    sound = IsSound-refcount s.adapter (s.adapter.refcount - 1) x.sound;
    counted = omega (arith, x.counted, f);
    alone = omega (arith, x.alone, f);
    owned = x.owned;
  }

  -- In every state that the device can come to from its probing, by allowed calls in any order: at
  -- most one process uses it, it is up only while a file is open, no file is open or shutting down
  -- that the reference count does not count, and the adapter is sound.
  pub Reach-IsExclusive : (s t : System) → Probed s → Reach ops s t → IsExclusive t
  Reach-IsExclusive s t (sound, off, one, none_open, none_closing) here = record {
    sound = sound;
    counted = omega arith;
    alone = omega arith;
    owned = λ u. absurd (cc (off, u));
  }
  Reach-IsExclusive s t p (next {t = m} r st) = Step-IsExclusive st (Reach-IsExclusive s m p r)

  -- From every such state with an open file, its holder can close it, and then the device is down,
  -- holds nothing of the kernel for its interrupts, and can be opened again.
  pub Reach-reopen :
      (s t : System)
      → Probed s
      → Reach ops s t
      → 0 < t.files
      → (u v : System) × Step ops t u
        × Step ops u v
        × (v.adapter.up ≡ false)
        × (v.adapter.held ≡ nothing_held)
        × ((ixmap_open v.adapter).0 ≡ success)
  unfolding ixmap_open ixmap_adapter_inuse close_down
  Reach-reopen s t p r f =
      let x = Reach-IsExclusive s t p r in
      let (status, reply, a, run, sound, refs, base, off) =
        ixmap_cmd_down-Stopped ops true t.adapter x.sound in
      let down : close_down ops true t.adapter ≡ some a = rw (close_down, run) refl in
      let u : System = record { adapter = a; files = t.files - 1; closing = t.closing + 1 } in
      let v : System = record u { adapter = ixmap_adapter_put a; closing = u.closing - 1 } in
      let idle = subst (λ b. IsReady b a) off sound.1 in
      let free : (a.refcount - 1 == 1) ≡ true = ground (arith, refs, x.counted, x.alone) in
      (u, v, shut true a f down, put (omega arith), off, idle.3, rw free refl)
