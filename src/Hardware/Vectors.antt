-- ===== src/Hardware/Vectors.antt =====
-- kernel/kernel.c: the ports of the interrupt controllers, and the vector of the timer.
use rml.Base.{ℕ, ◌+◌, ◌≤◌, ◌<◌, u8, [], ◌∷◌, ◌++◌, leb, if◌then◌else◌, ◌≡◌, ◌⊎◌, arith}
use rml.Hardware.{Pc, u16, load_word, store_word, store_long}

unfoldable pub outb : ℕ → ℕ → Pc → Pc
outb port value pc = record pc { ports = pc.ports ++ (u16 port, u8 value) ∷ [] }

-- `PIC1_COMMAND` is 0x20, `PIC2_COMMAND` 0xA0 and `PIC_EOI` 0x20.
unfoldable pub pic_send_eoi : ℕ → Pc → Pc
unfolding outb
pic_send_eoi irq pc = outb 0x20 0x20 (if leb 8 irq then outb 0xA0 0x20 pc else pc)

-- The two variables for the old vector are ints to C. The assembly reserves two bytes for each:
-- `b_int8_seg` at an address and `b_int8_offs` two bytes behind it.
unfoldable pub save_oldint8 : ℕ → (ℕ → ℕ) → ℕ → ℕ
save_oldint8 b_int8 ram =
    store_long b_int8 (load_word ram 0x22) (store_long (b_int8 + 2) (load_word ram 0x20) ram)

unfoldable pub set_scheduler : ℕ → (ℕ → ℕ) → ℕ → ℕ
unfolding save_oldint8
set_scheduler b_int8 ram = store_word 0x22 0x1000 (store_word 0x20 0x5 (save_oldint8 b_int8 ram))

-- The old vector of interrupt 8, as two words, and what the machine has in its place afterwards.
pub record Installed (b_int8 : ℕ) (ram ram' : ℕ → ℕ) : Type 0 where
  pub offset : load_word ram' 0x20 ≡ 0x5
  pub segment : load_word ram' 0x22 ≡ 0x1000
  pub saved_segment : load_word ram' b_int8 ≡ load_word ram 0x22
  pub lost_offset : load_word ram' (b_int8 + 2) ≡ 0
  pub others : (p : ℕ) → (p < 0x20) ⊎ (0x23 < p) → (p < b_int8) ⊎ (b_int8 + 5 < p) → ram' p ≡ ram p

-- Memory holds bytes, and the variables stand behind the interrupt table. `set_scheduler` makes
-- 1000:0005 the handler of interrupt 8 and keeps the old handler's segment; its offset is lost: the
-- int stored at `b_int8_seg` is twice as long as what the assembly reserves, and leaves 0 in
-- `b_int8_offs`. The rest of memory is as it was, but for the two bytes behind the variables.
pub set_scheduler_lem :
    (b_int8 : ℕ) (ram : ℕ → ℕ)
    → ((p : ℕ) → ram p < 256)
    → 0x400 ≤ b_int8
    → Installed b_int8 ram (set_scheduler b_int8 ram)
unfolding set_scheduler
set_scheduler_lem b_int8 ram bytes h = record {
  offset = ground arith;
  segment = ground arith;
  saved_segment = ground (arith, bytes 0x22, bytes 0x23);
  lost_offset = ground (arith, bytes 0x22, bytes 0x23);
  others = λ p out out'. ground arith;
}
