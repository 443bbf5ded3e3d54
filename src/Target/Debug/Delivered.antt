-- ===== src/Target/Debug/Delivered.antt =====
-- The board does what the tool asks for over the serial line.
use mathlib.Core.List.{append-nil, append_assoc}
use ajardsp.Common.{ℕ, zero, suc, ◌+◌, ◌/◌, ◌^◌, ◌<◌, ◌≡◌, refl, ap, ap₂, ◌∙◌, sym, subst, arith}
use ajardsp.Common.{
  List, [], ◌∷◌, ◌++◌, Memory, update, u32, good, fault, ◌>>=◌, ltb, leb, lt→ltb, Bool, true, false,
  if◌then◌else◌, Bool-cases, inl, inr, ◌*◌, ◌-◌,
}
use ajardsp.Target.Bytes.{int_bytes, word_of-bytes}
use ajardsp.Target.Debug.{W32, wb_debug_w32, serial, wb_debug_r32, dump_from, dump_mem}
use ajardsp.Target.Debug.Receiver.{s_idle, Receiver, receive_all, receive, bus_write, bus_read}

-- The memory on the bus after a sequence of calls.
unfoldable pub perform : List W32 → Memory → Memory
perform [] bus = bus
perform (w ∷ ws) bus = perform ws (update bus w.addr w.word)

-- The numbers of every call have 32 bits, as `unsigned int` has.
unfoldable pub AreWords : List W32 → Type 0
AreWords [] = Unit {0}
AreWords (w ∷ ws) = (w.addr < 2 ^ 32) × (w.word < 2 ^ 32) × AreWords ws

-- What the board keeps to itself is of no interest once it is idle.
pub record Idle (r : Receiver) (bus : Memory) (sent : List ℕ) : Type 0 where
  pub idle : r.state ≡ s_idle
  pub bus_holds : r.bus ≡ bus
  pub has_sent : r.sent ≡ sent

receive_all-++ :
    (xs ys : List ℕ) (r : Receiver) → receive_all (xs ++ ys) r ≡ receive_all ys (receive_all xs r)
unfolding receive_all
receive_all-++ [] ys r = refl
receive_all-++ (x ∷ xs) ys r = receive_all-++ xs ys (receive x r)

-- A board that waits for a command may be taken to be written with that state.
from_idle {ℓ} :
    (P : Receiver → Type ℓ) (r : Receiver)
    → r.state ≡ s_idle
    → P (record r { state = s_idle })
    → P r
from_idle P r is_idle p = subst P (ap (λ s. record r { state = s }) (sym is_idle)) p

one_write :
    (w : W32) (r : Receiver)
    → r.state ≡ s_idle
    → w.addr < 2 ^ 32
    → w.word < 2 ^ 32
    → Idle (receive_all (wb_debug_w32 w) r) (update r.bus w.addr w.word) r.sent
unfolding receive_all receive wb_debug_w32 int_bytes bus_write
one_write w r is_idle a d =
    from_idle (λ b. Idle (receive_all (wb_debug_w32 w) b) (update b.bus w.addr w.word) b.sent) r
      is_idle
      (record {
        idle = refl;
        bus_holds = ap₂ (update r.bus) (word_of-bytes w.addr a) (word_of-bytes w.word d);
        has_sent = refl;
      })

one_read :
    (addr : ℕ) (r : Receiver)
    → r.state ≡ s_idle
    → addr < 2 ^ 32
    → Idle (receive_all (wb_debug_r32 addr) r) r.bus (r.sent ++ int_bytes (r.bus addr))
unfolding receive_all receive wb_debug_r32 int_bytes bus_read
one_read addr r is_idle a =
    from_idle
      (λ b. Idle (receive_all (wb_debug_r32 addr) b) b.bus (b.sent ++ int_bytes (b.bus addr))) r
      is_idle
      (record {
        idle = refl;
        bus_holds = refl;
        has_sent = ap (λ x. r.sent ++ int_bytes (r.bus x)) (word_of-bytes addr a);
      })

-- A board that waits for a command and gets the bytes of a sequence of calls of `wb_debug_w32`,
-- all of 32-bit numbers, waits for a command again, has done the writes in their order, and has
-- sent nothing.
pub receive_all-serial :
    (ws : List W32) (r : Receiver)
    → r.state ≡ s_idle
    → AreWords ws
    → Idle (receive_all (serial ws) r) (perform ws r.bus) r.sent
unfolding serial perform AreWords
receive_all-serial [] r is_idle h =
    unfold receive_all in record { idle = is_idle; bus_holds = refl; has_sent = refl }
receive_all-serial (w ∷ ws) r is_idle h =
    let one = one_write w r is_idle h.0 h.1 in
    let rest = receive_all-serial ws (receive_all (wb_debug_w32 w) r) one.idle h.2 in
    let all = receive_all-++ (wb_debug_w32 w) (serial ws) r in
    record {
      idle = ap (λ b. b.state) all ∙ rest.idle;
      bus_holds = ap (λ b. b.bus) all ∙ rest.bus_holds ∙ ap (perform ws) one.bus_holds;
      has_sent = ap (λ b. b.sent) all ∙ rest.has_sent ∙ one.has_sent;
    }

-- The reads at every fourth address, and the answers to them.
unfoldable pub reads : ℕ → ℕ → ℕ → List ℕ
unfolding wb_debug_r32
reads zero i addr = []
reads (suc left) i addr = wb_debug_r32 (u32 (addr + i)) ++ reads left (i + 4) addr

unfoldable pub answers : ℕ → ℕ → ℕ → Memory → List ℕ
unfolding int_bytes
answers zero i addr bus = []
answers (suc left) i addr bus = int_bytes (bus (u32 (addr + i))) ++ answers left (i + 4) addr bus

receive_all-reads :
    (left i addr : ℕ) (r : Receiver)
    → r.state ≡ s_idle
    → Idle (receive_all (reads left i addr) r) r.bus (r.sent ++ answers left i addr r.bus)
unfolding reads answers
receive_all-reads zero i addr r is_idle =
    unfold receive_all in
    record { idle = is_idle; bus_holds = refl; has_sent = sym (append-nil r.sent) }
receive_all-reads (suc left) i addr r is_idle =
    let a = u32 (addr + i) in
    let one = one_read a r is_idle (omega arith) in
    let rest = receive_all-reads left (i + 4) addr (receive_all (wb_debug_r32 a) r) one.idle in
    let all = receive_all-++ (wb_debug_r32 a) (reads left (i + 4) addr) r in
    record {
      idle = ap (λ b. b.state) all ∙ rest.idle;
      bus_holds = ap (λ b. b.bus) all ∙ rest.bus_holds ∙ one.bus_holds;
      has_sent =
          ap (λ b. b.sent) all
          ∙ rest.has_sent
          ∙ ap₂ (λ s m. s ++ answers left (i + 4) addr m) one.has_sent one.bus_holds
          ∙ append_assoc r.sent (int_bytes (r.bus a)) (answers left (i + 4) addr r.bus);
    }

reads_before :
    (b : Bool) (first rest : List ℕ)
    → ((if b then good rest else fault) >>= λ bytes. good (first ++ bytes))
      ≡ (if b then good (first ++ rest) else fault)
reads_before true first rest = refl
reads_before false first rest = refl

-- No sum overflows, or the last one does.
dump_from-reads :
    (left i addr : ℕ)
    → i < 2 ^ 31
    → dump_from left i addr
      ≡ (if ltb (i + 4 * left) (2 ^ 31) then good (reads left i addr) else fault)
unfolding dump_from reads
dump_from-reads zero i addr h = rw (lt→ltb (i + 4 * 0) (2 ^ 31) (omega arith)) refl
dump_from-reads (suc left) i addr h = elim (Bool-cases (ltb (i + 4) (2 ^ 31))) [
  | inl fits ↦
      let next : i + 4 + 4 * left ≡ i + 4 * suc left = omega arith in
      rw (fits, dump_from-reads left (i + 4) addr (ground arith), next)
        (reads_before (ltb (i + 4 * suc left) (2 ^ 31)) (wb_debug_r32 (u32 (addr + i)))
          (reads left (i + 4) addr))
  | inr over ↦
      let never : ltb (i + 4 * suc left) (2 ^ 31) ≡ false = ground arith in rw (over, never) refl
]

-- `dump_mem` ends without an overflow of its counter just for a length of at most 2 ^ 31 - 4. It
-- has then written bytes to which a board that waits for a command answers, for each fourth
-- address from the first one on up to the length, wrapping at 2 ^ 32, with the four bytes of what
-- the bus holds there, the lowest first; the board then waits for a command again and has changed
-- nothing.
pub receive_all-dump_mem :
    (addr len : ℕ) (r : Receiver)
    → r.state ≡ s_idle
    → (bytes : List ℕ) × (dump_mem addr len ≡ (if leb len (2 ^ 31 - 4) then good bytes else fault))
      × Idle (receive_all bytes r) r.bus (r.sent ++ answers ((len + 3) / 4) 0 addr r.bus)
unfolding dump_mem
receive_all-dump_mem addr len r is_idle =
    let left = (len + 3) / 4 in
    let same : ltb (0 + 4 * left) (2 ^ 31) ≡ leb len (2 ^ 31 - 4) = ground arith in
    (
      reads left 0 addr,
      dump_from-reads left 0 addr (omega arith)
          ∙ ap (λ b. if b then good (reads left 0 addr) else fault) same,
      receive_all-reads left 0 addr r is_idle,
    )
