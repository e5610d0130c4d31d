-- ===== src/Fops/Examples.antt =====
-- The device of kmod/ixmap_fops.c: a process opens it and brings it up with two queues.
use ixmap.Base.{◌<◌, ◌≡◌, refl, true, false, arith}
use ixmap.Adapter.{Adapter, ixmap_adapter_inuse}
use ixmap.Adapter.Irqs.{nothing_held}
use ixmap.Adapter.Grants.{Grants}
use ixmap.Adapter.Life.{IsSound}
use ixmap.Adapter.Examples.{quiet_ops, granting, probed}
use ixmap.Fops.{success, UpReq, up, ixmap_open}
use ixmap.Fops.Calls.{ixmap_ioctl-IsSound}
use ixmap.Fops.Reach.{
  System, Step, open_file, call, Reach, here, next, Probed, IsExclusive, Reach-IsExclusive,
  Reach-reopen,
}

abbrev two_each : UpReq
two_each = record { num_interrupt_rate = 8; num_rx_queues = 2; num_tx_queues = 2 }

probed-IsSound : IsSound probed
probed-IsSound = (refl, (refl, refl, refl, refl))

two_each-Grants :
    (a : Adapter)
    → a.max_msix_vectors ≡ 64
    → Grants granting (record a { num_rx_queues = 2; num_tx_queues = 2 })
two_each-Grants a e = record {
  enough = omega (arith, e);
  entries = refl;
  enables = λ n. refl;
  rx_array = refl;
  tx_array = refl;
  irqs = λ v. refl;
  handlers = λ v. refl;
}

abbrev idle_system : System
idle_system = record { adapter = probed; files = 0; closing = 0 }

abbrev opened : Adapter
opened = record probed { refcount = 2 }

abbrev open_system : System
open_system = record { adapter = opened; files = 1; closing = 0 }

-- The state after the open, and after `up` on it.
after_open : Reach quiet_ops idle_system open_system
unfolding ixmap_open ixmap_adapter_inuse
after_open = next here (open_file opened refl)

opened-IsSound : IsSound opened
opened-IsSound = (refl, (refl, refl, refl, refl))

after_up : (t : System) × Reach quiet_ops idle_system t × (0 < t.files)
after_up =
    let (status, reply, a, run, sound, refs, base) =
      ixmap_ioctl-IsSound quiet_ops true true true (up two_each granting) opened opened-IsSound
        (two_each-Grants opened refl) in
    (
      record { adapter = a; files = 1; closing = 0 },
      next after_open (
          call true true true (up two_each granting) status reply a (omega arith)
            (two_each-Grants opened refl) run),
      omega arith,
    )

idle_system-Probed : Probed idle_system
idle_system-Probed = (probed-IsSound, refl, refl, refl, refl)

Reach-IsExclusive_example : IsExclusive after_up.0
Reach-IsExclusive_example =
    Reach-IsExclusive quiet_ops idle_system after_up.0 idle_system-Probed after_up.1

Reach-reopen_example :
    (u v : System) × Step quiet_ops after_up.0 u
    × Step quiet_ops u v
    × (v.adapter.up ≡ false)
    × (v.adapter.held ≡ nothing_held)
    × ((ixmap_open v.adapter).0 ≡ success)
Reach-reopen_example =
    Reach-reopen quiet_ops idle_system after_up.0 idle_system-Probed after_up.1 after_up.2
