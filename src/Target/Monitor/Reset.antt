-- ===== src/Target/Monitor/Reset.antt =====
-- `target_reset` of targetmon.c stops the core from every state of the receiver.
use ajardsp.Common.{
  [], ◌∷◌, ◌++◌, ℕ, zero, suc, ◌-◌, ◌≤◌, ◌≡◌, refl, arith, true, Bool-cases, inl, inr, ◌==◌, ==_iff,
}
use ajardsp.Target.Monitor.{cmd_reset, resets, target_reset}
use ajardsp.Target.Monitor.Receiver.{
  State, s_write_imem_addr_0, s_write_imem_addr_1, s_write_imem_data_0, s_write_imem_data_1,
  s_write_imem_data_2, s_write_imem_data_3, s_write_imem_data_4, s_write_imem_data_5,
  s_write_imem_data_6, s_write_imem_data_7, s_write_dmem_addr_0, s_write_dmem_addr_1,
  s_write_dmem_data_0, s_write_dmem_data_1, s_write_dmem_data_2, s_write_dmem_data_3,
  s_read_dmem_addr_0, s_read_dmem_addr_1, s_idle, Top, ImemWrite, imem_write, receive, receive_all,
  write_imem_word, write_dmem_word, answer,
}

-- How many bytes the command that has started still takes.
pub to_go : State → ℕ
to_go s_write_imem_addr_0 = 10
to_go s_write_imem_addr_1 = 9
to_go s_write_imem_data_0 = 8
to_go s_write_imem_data_1 = 7
to_go s_write_imem_data_2 = 6
to_go s_write_imem_data_3 = 5
to_go s_write_imem_data_4 = 4
to_go s_write_imem_data_5 = 3
to_go s_write_imem_data_6 = 2
to_go s_write_imem_data_7 = 1
to_go s_write_dmem_addr_0 = 6
to_go s_write_dmem_addr_1 = 5
to_go s_write_dmem_data_0 = 4
to_go s_write_dmem_data_1 = 3
to_go s_write_dmem_data_2 = 2
to_go s_write_dmem_data_3 = 1
to_go s_read_dmem_addr_0 = 2
to_go s_read_dmem_addr_1 = 1
to_go s_idle = 0

-- Every byte brings the receiver nearer to `s_idle`, where a reset leaves it.
nearer :
    (s : State) (t : Top) → to_go (receive cmd_reset (record t { state = s })).state ≡ to_go s - 1
unfolding receive to_go write_imem_word write_dmem_word answer
nearer s_write_imem_addr_0 t = refl
nearer s_write_imem_addr_1 t = refl
nearer s_write_imem_data_0 t = refl
nearer s_write_imem_data_1 t = refl
nearer s_write_imem_data_2 t = refl
nearer s_write_imem_data_3 t = refl
nearer s_write_imem_data_4 t = refl
nearer s_write_imem_data_5 t = refl
nearer s_write_imem_data_6 t = refl
nearer s_write_imem_data_7 t = refl
nearer s_write_dmem_addr_0 t = refl
nearer s_write_dmem_addr_1 t = refl
nearer s_write_dmem_data_0 t = refl
nearer s_write_dmem_data_1 t = refl
nearer s_write_dmem_data_2 t = refl
nearer s_write_dmem_data_3 t = refl
nearer s_read_dmem_addr_0 t = refl
nearer s_read_dmem_addr_1 t = refl
nearer s_idle t = refl

to_go-idle : (s : State) → to_go s ≡ 0 → s ≡ s_idle
unfolding to_go
to_go-idle s h = grind arith

to_go-le : (s : State) → to_go s ≤ 10
unfolding to_go
to_go-le s = grind arith

-- In `s_idle` a reset is a command.
reset_command :
    (t : Top)
    → t.state ≡ s_idle
    → ((receive cmd_reset t).state ≡ s_idle) × ((receive cmd_reset t).core_rst_r ≡ true)
unfolding receive
reset_command t is_idle = rw (is_idle) (refl, refl)

-- What resets leave: the receiver waits for a command and the core is held in reset.
pub record Stopped (t : Top) : Type 0 where
  pub idle : t.state ≡ s_idle
  pub core_reset : t.core_rst_r ≡ true

resets-Stopped-more : (n : ℕ) (t : Top) → Stopped t → Stopped (receive_all (resets n) t)
unfolding receive_all resets
resets-Stopped-more zero t s = s
resets-Stopped-more (suc n) t s =
    let (idle, stopped) = reset_command t s.idle in
    resets-Stopped-more n (receive cmd_reset t) (record { idle = idle; core_reset = stopped })

resets-Stopped : (n : ℕ) (t : Top) → suc (to_go t.state) ≤ n → Stopped (receive_all (resets n) t)
unfolding receive_all resets
resets-Stopped zero t h = absurd (omega arith)
resets-Stopped (suc n) t h = elim (Bool-cases (to_go t.state == 0)) [
  | inl none_left ↦
      let is_idle = to_go-idle t.state ((==_iff _ _).0 none_left) in
      let (idle, stopped) = reset_command t is_idle in
      resets-Stopped-more n (receive cmd_reset t) (record { idle = idle; core_reset = stopped })
  | inr some_left ↦
      let step = nearer t.state t in resets-Stopped n (receive cmd_reset t) (ground (arith, step))
]

-- The write that ten resets make after the command for the instruction memory.
abbrev pub reset_write : ImemWrite
reset_write = record { high = true; addrb = 0x30b0; dib = 0xc2c2c2c2 }

-- Ten resets after the command for the instruction memory are its address and its data.
ten_resets :
    (t : Top)
    → let t' = receive_all (resets 10) (record t { state = s_write_imem_addr_0 }) in
      (t'.core_rst_r ≡ t.core_rst_r) × (t'.imem_writes ≡ t.imem_writes ++ reset_write ∷ [])
unfolding receive_all receive resets write_imem_word imem_write
ten_resets t = (refl, refl)

-- From every state of the receiver, the bytes of `target_reset`, and any eleven resets or more,
-- leave the receiver waiting for a command, with the core held in reset. Ten are not enough: after
-- the command for the instruction memory they are taken as its address, 0xc2c2, and its data, of
-- which 32 bits go to the high half at 0xc2c2 / 4, and leave the core as it was.
pub target_reset-Stopped :
    (t : Top) (n : ℕ)
    → 11 ≤ n
    → let t' = receive_all (resets 10) (record t { state = s_write_imem_addr_0 }) in
      Stopped (receive_all target_reset t)
      × Stopped (receive_all (resets n) t)
      × (t'.core_rst_r ≡ t.core_rst_r)
      × (t'.imem_writes ≡ t.imem_writes ++ reset_write ∷ [])
unfolding target_reset
target_reset-Stopped t n h = (
  resets-Stopped 16 t (omega (arith, to_go-le t.state)),
  resets-Stopped n t (omega (arith, to_go-le t.state)),
  (ten_resets t).0,
  (ten_resets t).1,
)
