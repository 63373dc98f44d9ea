-- ===== src/Tests/Machines.antt =====
-- The theorems on the machine below the kernel at a concrete BIOS.
use rml.Base.{
  ℕ, zero, suc, ◌+◌, ◌-◌, ◌*◌, ◌%◌, ℤ, Bool, true, false, not, List, [], ◌∷◌, ◌++◌, codes,
  length-replicate, replicate, ◌==◌, if◌then◌else◌, Outcome, ok, stop, blocked, ◌≡◌, refl, ap,
  arith,
}
use rml.Block.{Bios}
use rml.Block.Transfer.{Serves}
use rml.Console.{put_chars}
use rml.Files.{is_zero}
use rml.Kernel.{read_keys}
use rml.Hardware.{Pc, Interrupts, high, low, memory_at}
use rml.Hardware.Bios.{read_sectors, type_chars, type_keys}
use rml.Hardware.Vectors.{Installed, set_scheduler, set_scheduler_lem}
use rml.Hardware.Services.{ReadsSectors, Shows, TakesKeys, is_empty}
use rml.Hardware.Disk.{SeenBy, read_sectors-Serves}
use rml.Hardware.Terminal.{Shown, Taken, type_chars-put_chars, type_keys-read_keys}

-- A disk whose sectors are filled with the low byte of their number.
abbrev disk : ℕ → List ℕ
disk lba = replicate 512 (lba % 256)

take_key : List ℕ → Pc → Outcome Pc
take_key [] pc = stop blocked
take_key (c ∷ keys) pc = ok (record pc { ax = c; keys = keys })

-- Interrupts 10h, 13h and 16h.
interrupt : Interrupts
unfolding take_key
interrupt n pc =
    if n == 0x13
    then ok (record pc {
      ax = 1;
      ram = λ q. ((high pc.cx * 2 + high pc.dx) * 18 + (low pc.cx - 1)) % 256;
    })
    else if n == 0x10
    then ok (record pc { screen = pc.screen ++ low pc.ax ∷ [] })
    else if high pc.ax == 1
    then ok (record pc { zero_flag = is_empty pc.keys })
    else take_key pc.keys pc

memory_of_one : (v p n : ℕ) → memory_at (λ q. v) p n ≡ replicate n v
unfolding memory_at
memory_of_one v p zero = refl
memory_of_one v p (suc n) = ap (λ l. v ∷ l) (memory_of_one v (p + 1) n)

reads : ReadsSectors interrupt disk
unfolding interrupt
reads = record {
  size = λ lba. length-replicate 512 (lba % 256);
  reads = λ pc h1 h2 h3 h4 h5 h6 h7 h8. (
    _,
    refl,
    refl,
    memory_of_one (((high pc.cx * 2 + high pc.dx) * 18 + (low pc.cx - 1)) % 256) _ 512,
  );
}

shows : Shows interrupt
unfolding interrupt
shows = record { shows = λ pc h. (pc.ax, refl) }

takes : TakesKeys interrupt
unfolding interrupt take_key
takes = record {
  takes = λ pc c keys h small same. (c, (rw (h, same) refl), omega arith);
  waits = λ pc h same. rw (h, same) refl;
  looks = λ pc h. (pc.ax, rw h refl);
}

-- A drive seen through `read_sectors`.
seen_of : Outcome (ℤ × Pc) → List ℕ → Bool × List ℕ
seen_of (ok (ret, pc)) buf = (not (is_zero ret), memory_at pc.ram (0x1000 * 16 + 0x4000) 512)
seen_of (stop e) buf = (true, buf)

abbrev holding : List ℕ → Pc
holding buf = record {
  ax = 0;
  bx = 0;
  cx = 0;
  dx = 0;
  es = 0;
  zero_flag = false;
  ram = λ p. 0;
  ports = [];
  screen = codes "#";
  keys = codes "ls";
}

abbrev drive_b : Bios
drive_b drive cylinder head sector buf =
    seen_of (read_sectors interrupt 0x1000 0x4000 1 cylinder sector head drive (holding buf)) buf

drive_b-SeenBy : SeenBy interrupt 0x1000 0x4000 holding drive_b
unfolding seen_of
drive_b-SeenBy = record {
  seen = λ drive cylinder head sector buf ret pc run. ap (λ o. seen_of o buf) run;
}

read_sectors-Serves_example : Serves drive_b 1 disk
read_sectors-Serves_example =
    read_sectors-Serves interrupt reads 0x1000 0x4000 holding drive_b (omega arith) (omega arith)
      (omega arith) drive_b-SeenBy

type_chars-put_chars_example :
    Shown
      (holding [])
      (put_chars (codes "ls") 2 (record { screen = codes "#"; digits = [] }))
      (type_chars interrupt (codes "ls") 2 (holding []))
type_chars-put_chars_example =
    type_chars-put_chars interrupt shows (codes "ls") 2 (record { screen = codes "#"; digits = [] })
      (holding []) (ground arith) refl

type_keys-read_keys_example :
    Taken
      (read_keys 2 (codes "ls") (replicate 3 0))
      (type_keys interrupt 2 (replicate 3 0) (holding []))
type_keys-read_keys_example =
    type_keys-read_keys interrupt takes 2 (replicate 3 0) (holding []) (ground arith)

set_scheduler_lem_example : Installed 0x10000 (λ p. 7) (set_scheduler 0x10000 (λ p. 7))
set_scheduler_lem_example = set_scheduler_lem 0x10000 (λ p. 7) (λ p. omega arith) (omega arith)
