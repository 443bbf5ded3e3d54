-- ===== src/Simdebug/Registers/Table.antt =====
-- The table `RegsOfInterest` of sw/tools/simdebug/debug-pli.c.
use ajardsp.Common.{ℕ, Option, none, some, List, [], ◌∷◌, CString, codes}

-- `path`, `name` and `index` of a `Reg_t`; an index of -1 is none.
pub record RegRow : Type 0 where
  pub path : CString
  pub name : CString
  pub index : Option ℕ

abbrev single : CString → CString → RegRow
single path name = record { path = path; name = name; index = none }

abbrev element : CString → CString → ℕ → RegRow
element path name i = record { path = path; name = name; index = some i }

unfoldable pub regs_of_interest : List RegRow
regs_of_interest =
    single (codes "testbench.ajardsp_0.pcu_0.pc_i") (codes "pc")
    ∷ single (codes "testbench.ajardsp_0.pcu_0.retpc_r") (codes "$retpc")
    ∷ single (codes "testbench.ajardsp_0.pred_0.pred_reg_r") (codes "$pred")
    ∷ single (codes "testbench.ajardsp_0.sp_0.sp_r") (codes "$sp")
    ∷ single (codes "testbench.ajardsp_0.curegs_0.satctrl_r") (codes "$satctrl")
    ∷ single (codes "testbench.ajardsp_0.curegs_0.mulsign_r") (codes "$mulsign")
    ∷ single (codes "testbench.ajardsp_0.lsuregs_0.mask_sel_o") (codes "$masksel")
    ∷ single (codes "testbench.ajardsp_0.lsuregs_0.mask_0_o") (codes "$mask0")
    ∷ single (codes "testbench.ajardsp_0.lsuregs_0.mask_1_o") (codes "$mask1")
    ∷ single (codes "testbench.ajardsp_0.lsuregs_0.mod_sel_o") (codes "$modsel")
    ∷ single (codes "testbench.ajardsp_0.lsuregs_0.mod_0_o") (codes "$mod0")
    ∷ single (codes "testbench.ajardsp_0.lsuregs_0.mod_1_o") (codes "$mod1")
    ∷ single (codes "testbench.ajardsp_0.lsuregs_0.bitrev_o") (codes "$bitrev")
    ∷ single (codes "testbench.ajardsp_0.gpio_r") (codes "$gpio")
    ∷ element (codes "testbench.ajardsp_0.ptrrf_0.ptr_regs") (codes "$ptr0") 0
    ∷ element (codes "testbench.ajardsp_0.ptrrf_0.ptr_regs") (codes "$ptr1") 1
    ∷ element (codes "testbench.ajardsp_0.ptrrf_0.ptr_regs") (codes "$ptr2") 2
    ∷ element (codes "testbench.ajardsp_0.ptrrf_0.ptr_regs") (codes "$ptr3") 3
    ∷ element (codes "testbench.ajardsp_0.ptrrf_0.ptr_regs") (codes "$ptr4") 4
    ∷ element (codes "testbench.ajardsp_0.ptrrf_0.ptr_regs") (codes "$ptr5") 5
    ∷ element (codes "testbench.ajardsp_0.ptrrf_0.ptr_regs") (codes "$ptr6") 6
    ∷ element (codes "testbench.ajardsp_0.ptrrf_0.ptr_regs") (codes "$ptr7") 7
    ∷ element (codes "testbench.ajardsp_0.accrf_share_0.accrf_0.acc_regs_low") (codes "$acc0l") 0
    ∷ element (codes "testbench.ajardsp_0.accrf_share_0.accrf_0.acc_regs_high") (codes "$acc0h") 0
    ∷ element (codes "testbench.ajardsp_0.accrf_share_0.accrf_0.acc_regs_guard") (codes "$acc0g") 0
    ∷ element (codes "testbench.ajardsp_0.accrf_share_0.accrf_0.acc_regs_low") (codes "$acc1l") 1
    ∷ element (codes "testbench.ajardsp_0.accrf_share_0.accrf_0.acc_regs_high") (codes "$acc1h") 1
    ∷ element (codes "testbench.ajardsp_0.accrf_share_0.accrf_0.acc_regs_guard") (codes "$acc1g") 1
    ∷ element (codes "testbench.ajardsp_0.accrf_share_0.accrf_0.acc_regs_low") (codes "$acc2l") 2
    ∷ element (codes "testbench.ajardsp_0.accrf_share_0.accrf_0.acc_regs_high") (codes "$acc2h") 2
    ∷ element (codes "testbench.ajardsp_0.accrf_share_0.accrf_0.acc_regs_guard") (codes "$acc2g") 2
    ∷ element (codes "testbench.ajardsp_0.accrf_share_0.accrf_0.acc_regs_low") (codes "$acc3l") 3
    ∷ element (codes "testbench.ajardsp_0.accrf_share_0.accrf_0.acc_regs_high") (codes "$acc3h") 3
    ∷ element (codes "testbench.ajardsp_0.accrf_share_0.accrf_0.acc_regs_guard") (codes "$acc3g") 3
    ∷ element (codes "testbench.ajardsp_0.accrf_share_0.accrf_0.acc_regs_low") (codes "$acc4l") 4
    ∷ element (codes "testbench.ajardsp_0.accrf_share_0.accrf_0.acc_regs_high") (codes "$acc4h") 4
    ∷ element (codes "testbench.ajardsp_0.accrf_share_0.accrf_0.acc_regs_guard") (codes "$acc4g") 4
    ∷ element (codes "testbench.ajardsp_0.accrf_share_0.accrf_0.acc_regs_low") (codes "$acc5l") 5
    ∷ element (codes "testbench.ajardsp_0.accrf_share_0.accrf_0.acc_regs_high") (codes "$acc5h") 5
    ∷ element (codes "testbench.ajardsp_0.accrf_share_0.accrf_0.acc_regs_guard") (codes "$acc5g") 5
    ∷ element (codes "testbench.ajardsp_0.accrf_share_0.accrf_0.acc_regs_low") (codes "$acc6l") 6
    ∷ element (codes "testbench.ajardsp_0.accrf_share_0.accrf_0.acc_regs_high") (codes "$acc6h") 6
    ∷ element (codes "testbench.ajardsp_0.accrf_share_0.accrf_0.acc_regs_guard") (codes "$acc6g") 6
    ∷ element (codes "testbench.ajardsp_0.accrf_share_0.accrf_0.acc_regs_low") (codes "$acc7l") 7
    ∷ element (codes "testbench.ajardsp_0.accrf_share_0.accrf_0.acc_regs_high") (codes "$acc7h") 7
    ∷ element (codes "testbench.ajardsp_0.accrf_share_0.accrf_0.acc_regs_guard") (codes "$acc7g") 7
    ∷ []
