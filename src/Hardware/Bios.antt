-- ===== src/Hardware/Bios.antt =====
-- kernel/bios.c: the BIOS calls, register by register. `load_program` is from kernel/kernel.c.
use rml.Base.{
  ℕ, zero, suc, ℤ, List, [], ◌∷◌, if◌then◌else◌, Outcome, ok, stop, bounds, no_fuel, ◌>>=◌,
}
use rml.Hardware.{Pc, Interrupts, u16, high, low, set_high, set_low, signed_char}

-- The registers for reading sectors: service 2, the count in AL, the cylinder in CH, the sector in
-- CL, the head in DH, the drive in DL, and the buffer at ES:BX.
abbrev pub for_read : ℕ → ℕ → ℕ → ℕ → ℕ → ℕ → ℕ → Pc → Pc
for_read segment offset num_sectors cylinder sector head drive pc = record pc {
  ax = set_high 0x02 (set_low num_sectors pc.ax);
  bx = u16 offset;
  cx = set_low sector (set_high cylinder pc.cx);
  dx = set_high head (set_low drive pc.dx);
  es = u16 segment;
}

module _ (interrupt : Interrupts) where
  -- The registers are pushed before and popped afterwards; AH is the result.
  unfoldable pub read_sectors : ℕ → ℕ → ℕ → ℕ → ℕ → ℕ → ℕ → Pc → Outcome (ℤ × Pc)
  read_sectors segment buf_offset num_sectors cylinder sector head drive pc = do
    back ← interrupt 0x13 (for_read segment buf_offset num_sectors cylinder sector head drive pc)
    ok (
      signed_char (high back.ax),
      record back { ax = pc.ax; bx = pc.bx; cx = pc.cx; dx = pc.dx; es = pc.es },
    )

  unfoldable pub load_program : ℕ → ℕ → ℕ → ℕ → ℕ → ℕ → ℕ → Pc → Outcome Pc
  load_program segment prog_offset num_sectors cylinder sector head drive pc =
      interrupt 0x13 (for_read segment prog_offset num_sectors cylinder sector head drive pc)

  -- The loop at `waitForKey`, each round with its own fuel.
  unfoldable pub wait_for_key : ℕ → Pc → Outcome Pc
  wait_for_key zero pc = stop no_fuel
  wait_for_key (suc fuel) pc = do
    pc1 ← interrupt 0x16 (record pc { ax = set_high 0x1 pc.ax })
    let again = wait_for_key fuel pc1
    if pc1.zero_flag then again else ok pc1

  unfoldable pub b_getchar_sync : Pc → Outcome (ℕ × Pc)
  b_getchar_sync pc = do
    pc1 ← interrupt 0x16 (record pc { ax = set_high 0x0 pc.ax })
    ok (low pc1.ax, pc1)

  unfoldable pub b_getchar : ℕ → Pc → Outcome (ℕ × Pc)
  unfolding wait_for_key b_getchar_sync
  b_getchar fuel pc = do
    pc1 ← wait_for_key fuel pc
    pc2 ← interrupt 0x16 (record pc1 { ax = set_high 0x0 pc1.ax })
    ok (low pc2.ax, pc2)

  -- Where no key waits the code stores 0 and goes on to the label `gotKey2`, as it does where one
  -- waits.
  unfoldable pub b_query_kb_stat : Pc → Outcome (ℕ × Pc)
  b_query_kb_stat pc = do pc1 ← interrupt 0x16 (record pc { ax = set_high 0x1 pc.ax }); ok (1, pc1)

  unfoldable pub bios_reboot : Pc → Outcome Pc
  bios_reboot pc = interrupt 0x19 pc

  unfoldable pub b_putchar : ℕ → Pc → Outcome Pc
  b_putchar c pc = do
    pc1 ← interrupt 0x10 (record pc { ax = set_low c (set_high 0xe pc.ax) })
    ok (record pc1 { ax = pc.ax })

  -- `for (i=0; i < count; i++) b_putchar(buf[i]);` of `write` in kernel/kernio.c.
  unfoldable pub type_chars : List ℕ → ℕ → Pc → Outcome Pc
  type_chars buf zero pc = ok pc
  type_chars [] (suc count) pc = stop bounds
  type_chars (c ∷ buf) (suc count) pc = do pc1 ← b_putchar c pc; type_chars buf count pc1

  -- `for (i=0; i < count; i++) buf[i] = b_getchar_sync();` of `read` in kernel/kernio.c.
  unfoldable pub type_keys : ℕ → List ℕ → Pc → Outcome (List ℕ × Pc)
  type_keys zero buf pc = ok (buf, pc)
  type_keys (suc count) [] pc = stop bounds
  type_keys (suc count) (b ∷ buf) pc = do
    (c, pc1) ← b_getchar_sync pc
    (rest, pc2) ← type_keys count buf pc1
    ok (c ∷ rest, pc2)
