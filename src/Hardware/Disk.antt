-- ===== src/Hardware/Disk.antt =====
-- `read_sectors` of kernel/bios.c gives what Block takes of a drive.
use rml.Base.{
  ℕ, ◌+◌, ◌-◌, ◌*◌, ◌%◌, ◌^◌, ◌≤◌, ◌<◌, ℤ, pos, false, not, List, ok, ◌≡◌, refl, sym, ap, ◌∙◌,
  arith,
}
use rml.Block.{Bios}
use rml.Block.Transfer.{Serves}
use rml.Files.{is_zero}
use rml.Hardware.{Pc, Interrupts, high, low, memory_at}
use rml.Hardware.Bios.{for_read, read_sectors}
use rml.Hardware.Services.{ReadsSectors}

-- What `read` of kernel/kernio.c sees of one call of `read_sectors`: whether it failed, and the
-- buffer afterwards. `holding` puts the machine into the state of the call.
pub record SeenBy (interrupt : Interrupts) (segment offset : ℕ) (holding : List ℕ → Pc)
    (bios : Bios) : Type 0 where
  pub seen :
      (drive cylinder head sector : ℕ) (buf : List ℕ) (ret : ℤ) (pc : Pc)
      → read_sectors interrupt segment offset 1 cylinder sector head drive (holding buf)
        ≡ ok (ret, pc)
      → bios drive cylinder head sector buf
        ≡ (not (is_zero ret), memory_at pc.ram (segment * 16 + offset) 512)

module _ (interrupt : Interrupts) {disk : ℕ → List ℕ} (service : ReadsSectors interrupt disk) where
  read_sectors_lem :
      (segment offset c h s : ℕ) (pc : Pc)
      → segment < 2 ^ 16
      → offset < 2 ^ 16
      → (segment * 16 + offset) % 2 ^ 16 + 512 ≤ 2 ^ 16
      → c < 80
      → h < 2
      → 1 ≤ s
      → s ≤ 18
      → (pc' : Pc) × (read_sectors interrupt segment offset 1 c s h 1 pc ≡ ok (pos 0, pc'))
        × (memory_at pc'.ram (segment * 16 + offset) 512 ≡ disk ((c * 2 + h) * 18 + (s - 1)))
  unfolding read_sectors
  read_sectors_lem segment offset c h s pc small small' inside cyl head first last =
      let called = for_read segment offset 1 c s h 1 pc in
      let (pc', run, status, sector) =
        service.reads called (omega arith) (omega arith) (omega arith) (omega arith) (omega arith)
          (omega arith) (omega arith) (omega arith) in
      let place : segment % 2 ^ 16 * 16 + offset % 2 ^ 16 ≡ segment * 16 + offset = omega arith in
      let at_sector : (high called.cx * 2 + high called.dx) * 18 + (low called.cx - 1)
          ≡ (c * 2 + h) * 18 + (s - 1) =
        omega arith in
      (
        record pc' { ax = pc.ax; bx = pc.bx; cx = pc.cx; dx = pc.dx; es = pc.es },
        (rw (run, status) refl),
        ap (λ (p : ℕ). memory_at pc'.ram p 512) (sym place) ∙ sector ∙ ap disk at_sector,
      )

  -- Let interrupt 13h read the sectors of the disk in drive B, as it is documented, and the buffer
  -- be in a 16-bit segment and at a 16-bit offset, with no multiple of 64K inside. A drive seen
  -- through `read_sectors` serves the disk: reading a place of it succeeds and fills the buffer
  -- with the sector there.
  pub read_sectors-Serves :
      (segment offset : ℕ) (holding : List ℕ → Pc) (bios : Bios)
      → segment < 2 ^ 16
      → offset < 2 ^ 16
      → (segment * 16 + offset) % 2 ^ 16 + 512 ≤ 2 ^ 16
      → SeenBy interrupt segment offset holding bios
      → Serves bios 1 disk
  read_sectors-Serves segment offset holding bios small small' inside see = record {
    size = service.size;
    reads = λ c h s buf cyl head first last.
        let (pc', run, sector) =
          read_sectors_lem segment offset c h s (holding buf) small small' inside cyl head first
            last in
        see.seen 1 c h s buf (pos 0) pc' run ∙ ap (λ l. (false, l)) sector;
  }
