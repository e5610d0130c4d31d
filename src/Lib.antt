-- ===== src/Lib.antt =====
-- ixmap: packet forwarding in user space on Intel 82599 network cards. A kernel module (kmod) maps
-- the card's registers and DMA memory; a library (lib) runs its descriptor rings; a forwarder (src)
-- routes frames between ports with its own route and neighbour tables, and hands the rest to tun
-- devices.
--
-- Files and code:
--   Base      tests on numbers, lists, bits and digits that the other files share
--   Hash      src/hash.c, src/hash.h: hash_add, hash_delete, hash_lookup, hash_delete_all
--   Neigh     src/neigh.c, src/neigh.h: neigh_alloc, neigh_add, neigh_delete, neigh_lookup, on Hash
--   Lpm       src/lpm.c, src/lpm.h: the trie; Lpm/Add, Lpm/Delete and Lpm/Lookup hold lpm_add,
--             lpm_delete and lpm_lookup with their helpers
--   Fib       src/fib.c, src/fib.h: fib_route_update, fib_route_delete, fib_lookup, on Lpm
--   Driver    lib/driver.c, lib/driver.h, structs of lib/ixmap.h: rings and packet slots; Driver/Rx
--             and Driver/Tx hold the receive and the transmit side
--   Forward   src/forward.c, src/thread.h: what becomes of a frame, on Fib, Neigh and Driver
--   Memory    lib/memory.c, lib/memory.h: the buddy allocator behind ixmap_mem_alloc
--   Dma       kmod/ixmap_dma.c, kmod/ixmap_dma.h: the DMA areas of an adapter, by address
--   Eeprom    kmod/ixmap_eeprom.c: ixmap_calc_eeprom_checksum, ixmap_validate_eeprom_checksum;
--             Eeprom/Serial: ixmap_shift_out_eeprom_bits, ixmap_shift_in_eeprom_bits;
--             Eeprom/PbaString: ixmap_read_pba_string
--   Hw        kmod/ixmap_type.h, kmod/ixmap_common.c, kmod/ixmap_common.h: register names and writes,
--             ixmap_setup_fc
--   Adapter   kmod/ixmap_main.c, kmod/ixmap_main.h: use counts, interrupt vectors, up and down
--   Fops      kmod/ixmap_fops.c, kmod/ixmap_fops.h: open, close, mmap and the ioctl commands, on
--             Adapter and Dma
--   Setup     lib/ixmap.c: opening a device, and the rings, packet memory and interrupts of a core;
--             Setup/Open, Setup/Desc, Setup/Buf, Setup/Plane and Setup/Irq hold the functions
--   Init      lib/rxinit.c, lib/txinit.c and their headers, ixmap_irq_enable of lib/ixmap.c: what the
--             library writes to a card's registers
--   Netlink   src/netlink.c: messages of the kernel as changes of the tables, on Fib and Neigh
--   Loop      src/thread.c: thread_wait, on Forward, Driver and Netlink
-- A function of the source is the definition of its name; the ones that begin with `_` and the
-- loops have names of their own, said in the files. State is passed and returned: a table, a port,
-- the slots, the packet memory. A return value -1 or NULL is `none` or `false`.
--
-- How the parts meet: netlink_process changes the tables through fib_route_update,
-- fib_route_delete, neigh_add and neigh_delete. A thread waits for events (thread_wait), takes
-- packets by ixmap_rx_clean, gives them to forward_process, which looks up a route and a neighbour,
-- rewrites the frame in place and queues it by ixmap_tx_assign; ixmap_rx_assign and ixmap_tx_clean
-- give slots back to the rings. The library asks the kernel module by ioctl to bring the adapter
-- up, to hand out interrupts and to map memory; Fops takes one call after the other, as the
-- semaphore orders them.
--
-- Conventions: arrays are functions of the index, or lists where the length matters; lists of
-- linux/list.h are their sequences; the host is little endian (x86); counters and indices wrap as
-- their C types do. ixmap_mem_alloc in Lpm and Fib and numa_alloc_onnode in Memory succeed or fail
-- as a list says that is part of the state. In Adapter and Fops what the kernel answers is an
-- argument, mac.ops of a card is a parameter, and `none` is a fault: a pointer used that does not
-- point to what the code expects. In Setup a world holds the answers of the system to the calls to
-- come, and what is held: memory, mappings, file descriptors; `attempt` is a call followed by
-- `goto` to an error label.
--
-- Fuel: lpm_add_below gets the prefix length as fuel, and each level uses up 8 bits of it; Memory
-- gets 33 levels, one more than a size in `unsigned int` can be halved. Theorems below show that
-- neither runs out. sum_data gets 65536 rounds: its loop ends by then or never, and it ends for the
-- EEPROMs of the theorem. enable_msix asks with fewer vectors each time, so that one round more
-- than there are vectors is enough. netlink_process gets one round more than there are bytes, and
-- each message takes some. events_loop may run for ever, as a theorem shows. All other loops
-- recurse on the rounds to go.
--
-- Not modelled: probe and remove of a card, what differs between cards (kmod/ixmap_82599.c), most
-- of kmod/ixmap_common.c, kmod/ixmap_phy.c, the word reads and semaphores of kmod/ixmap_eeprom.c, the
-- set-up of threads, epoll and tun devices; the debug printers; memory barriers; linux/list.h, a copy of
-- the kernel's; what a block becomes that fib_route_update frees while entries of the trie still point
-- to it, once it is used again: the trie holds entries as values.
pub mod Base
pub mod Hash
pub mod Neigh
pub mod Lpm
pub mod Fib
pub mod Driver
pub mod Forward
pub mod Memory
pub mod Dma
pub mod Eeprom
pub mod Hw
pub mod Adapter
pub mod Fops
pub mod Setup
pub mod Init
pub mod Netlink
pub mod Loop
