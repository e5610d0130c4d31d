-- ===== src/Init.antt =====
-- lib/rxinit.c, lib/txinit.c and their headers: how the library programs a card. A register keeps
-- what is written to it; what the hardware answers to a loop that polls a register is a list.
-- `uint8_t reg_idx` is the number of a queue.
pub mod Rx
pub mod Tx
pub mod Mask
pub mod Queues
pub mod Reta
pub mod Sizes
mod Examples
use ixmap.Base.{
  ℕ, zero, suc, ◌+◌, ◌*◌, ◌%◌, ◌^◌, List, [], ◌∷◌, Bool, true, false, not, ◌==◌, if◌then◌else◌,
  bit_and,
}
use ixmap.Hw.{Regs, write_reg}

-- `late` counts the messages of polling loops that ran out.
pub record Card : Type 0 where
  pub regs : Regs
  pub polls : List ℕ
  pub late : ℕ

abbrev pub ixmap_write_reg : ℕ → ℕ → Card → Card
ixmap_write_reg reg value card = record card { regs = write_reg card.regs reg value }

-- `do … while(--wait_loop && …)`, with `wait_loop` to go: whether it ran out, and the answers left.
pub poll_loop : (ℕ → Bool) → ℕ → List ℕ → Bool × List ℕ
poll_loop again zero polls = (true, polls)
poll_loop again (suc wait_loop) [] = (true, [])
poll_loop again (suc wait_loop) (value ∷ polls) =
    let rest = poll_loop again wait_loop polls in
    if wait_loop == 0 then (true, polls) else if again value then rest else (false, polls)

abbrev pub poll_reg : (ℕ → Bool) → ℕ → Card → Card
poll_reg again wait_loop card =
    let (out, polls) = poll_loop again wait_loop card.polls in
    record card { polls = polls; late = if out then card.late + 1 else card.late }

-- IXGBE_RXDCTL_ENABLE and IXGBE_TXDCTL_ENABLE.
abbrev pub dctl_enable : ℕ
dctl_enable = 0x0200_0000

abbrev pub is_enabled : ℕ → Bool
is_enabled value = not (bit_and value dctl_enable == 0)
