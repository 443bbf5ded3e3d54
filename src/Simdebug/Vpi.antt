-- ===== src/Simdebug/Vpi.antt =====
-- What debug-pli.c uses of the simulator's VPI: an object of the design is found by its path and by
-- an index, has a size in bits, and holds a value.
use ajardsp.Common.{ℕ, Option, CString}

-- What a value that is put does to the design, as the simulation goes on, is left to the simulator.
pub record Vpi : Type 1 where
  pub Design : Type 0
  pub Handle : Type 0
  pub vpi_handle_by_name : CString → Option Handle
  pub vpi_handle_by_index : Handle → ℕ → Option Handle
  pub vpi_size : Handle → ℕ
  pub vpi_get_value : Design → Handle → ℕ
  pub vpi_put_value : Design → Handle → ℕ → Design
