-- ===== src/Block.antt =====
-- The floppy drives in kernel/kernio.c: `lba_to_chs`, and what `read` does on a drive. The BIOS call
-- of `read_sectors` (kernel/bios.c) is a parameter.
pub mod Geometry
pub mod Transfer
use rml.Base.{
  ℕ, zero, suc, ◌+◌, ◌-◌, ◌*◌, ◌/◌, ◌%◌, u8, u32, Bool, true, false, ◌||◌, List, ◌++◌, ◌==◌, ltb,
  take, drop, if◌then◌else◌, Outcome, ok, stop, div_zero, ◌>>=◌,
}
use rml.Clib.Text.{memcpy}

-- A place on a drive: three `unsigned char`.
pub record Chs : Type 0 where
  pub cylinder : ℕ
  pub head : ℕ
  pub sector : ℕ

unfoldable pub lba_to_chs : ℕ → ℕ → ℕ → ℕ → Outcome Chs
lba_to_chs lba cylinders heads sectors =
    if sectors == 0 || heads == 0
    then stop div_zero
    else ok (record {
      cylinder = u8 (lba / (sectors * heads));
      head = u8 (u32 (lba + 1) / sectors % heads);
      sector = u8 (lba % sectors + 1);
    })

-- INT 13h, service 2, for one sector: drive, cylinder, head, sector and what the buffer holds
-- before; whether it failed and what the buffer holds afterwards.
abbrev pub Bios : Type 0
Bios = ℕ → ℕ → ℕ → ℕ → List ℕ → Bool × List ℕ

-- `if (sector > 18) …`: on to the next head, and to the next cylinder after the last head.
unfoldable pub turn : Chs → Chs
turn at =
    let head = (at.head + 1) % 2 in
    if ltb 18 at.sector
    then record {
      cylinder = (if head == 0 then u8 (at.cylinder + 1) else at.cylinder);
      head = head;
      sector = 1;
    }
    else at

-- `while (num_sectors > 0) …`. The numbers are the rounds left, the place, `num_bytes` and
-- `sector_offset`; the lists are `sector_buf` and the destination from `new_buf` on. The result is
-- the destination and how often the error message was printed. A failed read halts until the next
-- interrupt and goes on with the buffer as it is.
unfoldable pub transfer : Bios → ℕ → ℕ → Chs → ℕ → ℕ → List ℕ → List ℕ → Outcome (List ℕ × ℕ)
transfer bios drive zero at num_bytes offset buf dst = ok (dst, 0)
transfer bios drive (suc num_sectors) at num_bytes offset buf dst = do
  let here = turn at
  let reply = bios drive here.cylinder here.head here.sector buf
  out ← memcpy dst (drop offset reply.1) (if ltb 512 num_bytes then 512 else num_bytes)
  (rest, errors) ←
      transfer bios drive num_sectors (record here { sector = u8 (here.sector + 1) })
        (if ltb 512 num_bytes then num_bytes - (512 - offset) else 0) 0 reply.1
        (drop (512 - offset) out)
  ok (take (512 - offset) out ++ rest, (if reply.0 then errors + 1 else errors))

-- `num_sectors` of a count.
unfoldable pub sectors_for : ℕ → ℕ
sectors_for count = if count == 0 then 0 else (count - 1) / 512 + 1

-- The branch of `read` for a drive: the position of the descriptor, the count, what `sector_buf`
-- holds at first, and the destination.
unfoldable pub read_drive : Bios → ℕ → ℕ → ℕ → List ℕ → List ℕ → Outcome (List ℕ × ℕ)
read_drive bios drive at count buf dst = do
  place ← lba_to_chs (at / 512) 80 2 18
  transfer bios drive (sectors_for count) place count (at % 512) buf dst
