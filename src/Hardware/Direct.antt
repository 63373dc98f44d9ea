-- ===== src/Hardware/Direct.antt =====
-- arch/8088/kernel/io.c: the output and input of a program past the kernel.
use rml.Base.{
  ℕ, zero, suc, List, [], ◌∷◌, ◌==◌, if◌then◌else◌, Outcome, ok, stop, bounds, no_fuel, ◌>>=◌,
}
use rml.Clib.Text.{memcpy}
use rml.Hardware.{Pc, Interrupts, low, set_high, set_low}

module _ (interrupt : Interrupts) where
  -- The assembly calls interrupt 0Ah and restores nothing.
  unfoldable pub dputchar : ℕ → Pc → Outcome Pc
  dputchar c pc = interrupt 0xa (record pc { ax = set_low c (set_high 0xe pc.ax) })

  -- `while (sysparam.param[i] != 0) …`, from a place of the block on.
  unfoldable pub put_direct : List ℕ → Pc → Outcome Pc
  put_direct [] pc = stop bounds
  put_direct (c ∷ param) pc =
      if c == 0 then ok pc else (do pc1 ← dputchar c pc; put_direct param pc1)

  -- The block afterwards, and the machine. `string` is the memory from the pointer on.
  unfoldable pub dprintstr : List ℕ → List ℕ → Pc → Outcome (List ℕ × Pc)
  dprintstr string sysparam pc = do
    param ← memcpy sysparam string 512
    pc1 ← put_direct param pc
    ok (param, pc1)

  -- The loop at `waitForKey`, each round with its own fuel.
  unfoldable pub wait_direct : ℕ → Pc → Outcome Pc
  wait_direct zero pc = stop no_fuel
  wait_direct (suc fuel) pc = do
    pc1 ← interrupt 0x16 (record pc { ax = set_high 0x1 pc.ax })
    let again = wait_direct fuel pc1
    if pc1.zero_flag then again else ok pc1

  unfoldable pub dgetchar : ℕ → Pc → Outcome (ℕ × Pc)
  dgetchar fuel pc = do
    pc1 ← wait_direct fuel pc
    pc2 ← interrupt 0x16 (record pc1 { ax = set_high 0x0 pc1.ax })
    ok (low pc2.ax, pc2)
