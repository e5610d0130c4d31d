-- ===== src/Hw.antt =====
-- The registers of the card, as kmod/ixmap_common.h reads and writes them: a register keeps what is
-- written to it. The names of the registers are those of kmod/ixmap_type.h.
use ixmap.Base.{ℕ, ◌+◌, ◌-◌, ◌*◌, ◌^◌, bit_and, bit_or, leb, if◌then◌else◌, update}

abbrev pub Regs : Type 0
Regs = ℕ → ℕ

-- IXGBE_WRITE_REG.
abbrev pub write_reg : Regs → ℕ → ℕ → Regs
write_reg regs reg value = update regs reg value

-- `value & ~mask` on `uint32_t`.
abbrev pub clear_bits : ℕ → ℕ → ℕ
clear_bits value mask = bit_and value (2 ^ 32 - 1 - mask)

abbrev pub reg_ctrl_ext : ℕ
reg_ctrl_ext = 0x00018

abbrev pub ctrl_ext_drv_load : ℕ
ctrl_ext_drv_load = 0x1000_0000

abbrev pub reg_eimc : ℕ
reg_eimc = 0x00888

abbrev pub reg_eimc_ex : ℕ → ℕ
reg_eimc_ex i = 0x00ab0 + i * 4

abbrev pub reg_eiac : ℕ
reg_eiac = 0x00810

abbrev pub reg_eiam_ex : ℕ → ℕ
reg_eiam_ex i = 0x00ad0 + i * 4

abbrev pub reg_gpie : ℕ
reg_gpie = 0x00898

abbrev pub max_eitr : ℕ
max_eitr = 0x00ff8

abbrev pub reg_eitr : ℕ → ℕ
reg_eitr i = if leb i 23 then 0x00820 + i * 4 else 0x12300 + (i - 24) * 4

abbrev pub eitr_cnt_wdis : ℕ
eitr_cnt_wdis = 0x8000_0000

abbrev pub reg_ivar : ℕ → ℕ
reg_ivar i = 0x00900 + i * 4

abbrev pub reg_txdctl : ℕ → ℕ
reg_txdctl i = 0x06028 + i * 0x40

abbrev pub txdctl_swflsh : ℕ
txdctl_swflsh = 0x0400_0000

abbrev pub reg_dmatxctl : ℕ
reg_dmatxctl = 0x04a80

abbrev pub dmatxctl_te : ℕ
dmatxctl_te = 0x1

abbrev pub reg_mflcn : ℕ
reg_mflcn = 0x04294

abbrev pub reg_fccfg : ℕ
reg_fccfg = 0x03d00

-- Disables flow control.
pub ixmap_setup_fc : Regs → Regs
ixmap_setup_fc regs =
    let mflcn = clear_bits (regs reg_mflcn) 0xffc in
    let fccfg = clear_bits (regs reg_fccfg) 0x18 in
    write_reg (write_reg regs reg_mflcn (bit_or mflcn 0x2)) reg_fccfg fccfg
