-- ===== src/Asm/Insns.antt =====
-- `ajardsp_insns` of sw/tools/asm/ajardsp-insns.c: one row for each form of each instruction. The
-- row of the NULL mnemonic that ends the table is the end of the list.
mod Macros
mod Rows
mod Bmu
mod Cu
mod Lsu
mod Pcu
pub mod Checks
use ajardsp.Common.{List, ◌++◌}
use ajardsp.Asm.Types.{InstDef}
use Bmu.{bmu_insns_1, bmu_insns_2, bmu_insns_3}
use Cu.{cu_insns_1, cu_insns_2, cu_insns_3, cu_insns_4}
use Lsu.{lsu_insns_1, lsu_insns_2, lsu_insns_3, lsu_insns_4, lsu_insns_5, lsu_insns_6}
use Pcu.{pcu_insns_1, pcu_insns_2}

unfoldable pub ajardsp_insns : List InstDef
unfolding bmu_insns_1 bmu_insns_2 bmu_insns_3 cu_insns_1 cu_insns_2 cu_insns_3 cu_insns_4
    lsu_insns_1 lsu_insns_2 lsu_insns_3 lsu_insns_4 lsu_insns_5 lsu_insns_6 pcu_insns_1 pcu_insns_2
ajardsp_insns =
    bmu_insns_1
    ++ (bmu_insns_2
        ++ (bmu_insns_3
            ++ (cu_insns_1
                ++ (cu_insns_2
                    ++ (cu_insns_3
                        ++ (cu_insns_4
                            ++ (lsu_insns_1
                                ++ (lsu_insns_2
                                    ++ (lsu_insns_3
                                        ++ (lsu_insns_4
                                            ++ (lsu_insns_5
                                                ++ (lsu_insns_6
                                                    ++ (pcu_insns_1 ++ (pcu_insns_2))))))))))))))
