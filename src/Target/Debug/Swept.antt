-- ===== src/Target/Debug/Swept.antt =====
-- The memory of the board after a sweep.
use ajardsp.Common.{ℕ, ◌+◌, ◌*◌, ◌^◌, ◌<◌, ◌≤◌, ◌≡◌, ◌≢◌, ap, ◌∙◌, arith}
use ajardsp.Common.{Memory}
use ajardsp.Target.Debug.{serial}
use ajardsp.Target.Debug.Delivered.{receive_all-serial}
use ajardsp.Target.Debug.Receiver.{Receiver, receive_all, s_idle}
use ajardsp.Target.Debug.Sweep.{sweep, sweep-AreWords, perform-sweep, perform-sweep_outside}

-- What a board that waits for a command holds at an address, the calls of one sweep delivered.
pub record Swept (value : ℕ → ℕ) (addr len : ℕ) (bus : Memory) (after : Receiver) : Type 0 where
  pub idle : after.state ≡ s_idle
  pub inside : (k : ℕ) → k < len → after.bus (addr + 4 * k) ≡ value k
  pub outside : (a : ℕ) → ((k : ℕ) → k < len → a ≢ addr + 4 * k) → after.bus a ≡ bus a

pub sweep-Swept :
    (value : ℕ → ℕ) (addr len : ℕ) (r : Receiver)
    → r.state ≡ s_idle
    → addr + 4 * len ≤ 2 ^ 32
    → ((k : ℕ) → value k < 2 ^ 32)
    → Swept value addr len r.bus (receive_all (serial (sweep value len 0 addr)) r)
sweep-Swept value addr len r is_idle fits words =
    let got =
      receive_all-serial (sweep value len 0 addr) r is_idle
        (sweep-AreWords value len 0 addr words) in
    record {
      idle = got.idle;
      inside = λ k h.
          ap (λ m. m (addr + 4 * k)) got.bus_holds
          ∙ perform-sweep value len 0 addr r.bus k (omega arith) (omega arith) (omega arith);
      outside = λ a h.
          ap (λ m. m a) got.bus_holds
          ∙ perform-sweep_outside value len 0 addr r.bus a
              (λ k low high e. h k (omega arith) (omega arith));
    }
