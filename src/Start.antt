-- ===== src/Start.antt =====
-- `startk` of kernel/kernel.c: starting the kernel, and its loop that runs init.
use rml.Base.{
  ℕ, zero, suc, ◌+◌, ◌^◌, ◌*◌, ◌≤◌, ◌<◌, List, [], ◌∷◌, ◌++◌, map, length, get_elem?-update_at,
  length-update_at, update_at, codes, literal, ◌==◌, if◌then◌else◌, Outcome, ok, ◌>>=◌, ◌≡◌, refl,
  sym, ap, ◌∙◌, subst, arith,
}
use rml.Base.Post.{Post, returns, result_of, weaken, Post-bind}
use rml.Block.Transfer.{Serves}
use rml.Clib.Text.Scan.{text_of, has_nul, lexicographic}
use rml.Console.{printk, line}
use rml.Console.Laws.{printk_lem}
use rml.Files.{SectionPositions}
use rml.Files.Laws.{device_of, entry_of}
use rml.Mm.{init_seg}
use rml.Mm.Laws.{addresses, Distinct}
use rml.Mm.FreeList.{Distinct-init}
use rml.Sched.{ProcessDesc, clear_pid, init_processes}
use rml.Kernel.{Kernel, open_file}
use rml.Kernel.Io.{CanRead}
use rml.Kernel.Frame.{allocation, pids_of, length-pids}
use rml.Fs.Layout.{Fat16BootSector, boot_sector_of}
use rml.Fs.Volume.{sections_of}
use rml.Fs.Mount.{mount, mount_lem, open_file_lem, IsMounted}
use rml.Syscall.{System}
use rml.Program.{run_program}
use rml.Program.Slots.{free_segs, free_slots}
use rml.Program.Restores.{HasFree, run_program-Restores}

-- `set_ivt`: the entry of interrupt 80h, an offset and a segment of two bytes each, is 1000:0000.
unfoldable pub set_ivt : (ℕ → ℕ) → ℕ → ℕ
set_ivt ram p =
    if p == 0x200
    then 0x00
    else if p == 0x201
    then 0x00
    else if p == 0x202
    then 0x00
    else if p == 0x203
    then 0x10
    else ram p

-- `startk` up to its loop. `sti` leaves this state alone.
unfoldable pub start : System → List ℕ → Kernel → Outcome Kernel
unfolding set_ivt
start s fat_table k = do
  (_, k1) ← open_file (literal "/dev/stdout") 0 k
  con ← printk (line (codes "starting kernel...")) k1.console
  (_, k2) ←
      mount s.machine (literal "/dev/fdb") fat_table
        (record k1 { console = con; segs = init_seg; ram = set_ivt k1.ram })
  (_, k3) ← open_file (literal "/dev/stdin") 0 k2
  ok k3

-- `n` rounds of the loop; `nesting` is the fuel of `run_program`. The name stands in the kernel's
-- memory and keeps the capitals of the round before.
unfoldable pub rounds : System → ℕ → ℕ → List ℕ → Kernel → Outcome Kernel
rounds s zero nesting name k = ok k
rounds s (suc n) nesting name k = do
  (_, left, k1) ← run_program s nesting name (record k { processes = init_processes k.processes })
  rounds s n nesting left.name k1

set_ivt_below : (ram : ℕ → ℕ) (p : ℕ) → p < 0x200 → set_ivt ram p ≡ ram p
unfolding set_ivt
set_ivt_below ram p h = ground (arith, h)

set_ivt_behind : (ram : ℕ → ℕ) (p : ℕ) → 0x204 ≤ p → set_ivt ram p ≡ ram p
unfolding set_ivt
set_ivt_behind ram p h = ground (arith, h)

abbrev greeting : List ℕ
greeting = codes "starting kernel..." ++ 13 ∷ 10 ∷ []

-- Opening a device other than the drive leaves the volume mounted.
IsMounted-open :
    (fd : ℕ) (bs : Fat16BootSector) (found : SectionPositions) (k : Kernel)
    → fd < 4
    → IsMounted bs found k
    → IsMounted bs found (record k { fd_list = update_at k.fd_list fd (entry_of k.s_pos fd) })
IsMounted-open fd bs found k low v =
    let (d, drive_at, own) = v.drive in
    record {
      boot_sector = v.boot_sector;
      sections = v.sections;
      drive = (
        d,
        ground (arith, get_elem?-update_at k.fd_list fd 4 (entry_of k.s_pos fd), drive_at),
        own,
      );
      root = v.root;
      root_at = ground (arith, get_elem?-update_at k.fd_list fd 5 (entry_of k.s_pos fd), v.root_at);
      size = length-update_at k.fd_list fd (entry_of k.s_pos fd) ∙ v.size;
    }

module _ (s : System) {disk : ℕ → List ℕ} (served : Serves s.machine.bios 1 disk) where
  -- Let the table have its six descriptors, the boot sector of the disk in drive B give the sections
  -- `found`, and `read_drive` be able to read the bytes that `read_fat` asks for, which fit its array.
  -- The kernel starts: it prints that it does, the segments are those of `init_seg`, the
  -- entry of interrupt 80h in memory, the four bytes from 200h on, is offset 0 and segment 1000h, all
  -- other memory is as it was, and the volume is mounted.
  pub start_lem :
      (fat_table : List ℕ) (found : SectionPositions) (k : Kernel)
      → length k.fd_list ≡ 6
      → sections_of (boot_sector_of (disk 0)) ≡ ok found
      → CanRead found.fat_section_start
          ((boot_sector_of (disk 0)).number_of_fats * (boot_sector_of (disk 0)).fat_size_sectors)
      → (boot_sector_of (disk 0)).number_of_fats * (boot_sector_of (disk 0)).fat_size_sectors
        ≤ length fat_table
      → (k' : Kernel) × (start s fat_table k ≡ ok k')
        × (k'.console.screen ≡ k.console.screen ++ greeting)
        × (k'.segs ≡ init_seg)
        × (k'.ram 0x200 + 2 ^ 8 * k'.ram 0x201 ≡ 0)
        × (k'.ram 0x202 + 2 ^ 8 * k'.ram 0x203 ≡ 0x1000)
        × ((p : ℕ) → p < 0x200 → k'.ram p ≡ k.ram p)
        × ((p : ℕ) → 0x204 ≤ p → k'.ram p ≡ k.ram p)
        × IsMounted (boot_sector_of (disk 0)) found k'
  unfolding start set_ivt text_of has_nul device_of lexicographic entry_of
  start_lem fat_table found k six placed can fits =
      let k1 = record k { fd_list = update_at k.fd_list 1 (entry_of k.s_pos 1) } in
      let ready = record k1 {
        console = record k.console { screen = k.console.screen ++ greeting };
        segs = init_seg;
        ram = set_ivt k.ram;
      } in
      let six1 : length ready.fd_list ≡ 6 =
        length-update_at k.fd_list 1 (entry_of k.s_pos 1) ∙ six in
      let (k2, run, mounted, rest) =
        mount_lem s.machine served (literal "/dev/fdb") fat_table found ready refl refl six1 placed
          can fits in
      let memory : k2.ram ≡ set_ivt k.ram = ap (λ q. q.ram) rest in
      let opened = record k2 { fd_list = update_at k2.fd_list 0 (entry_of k2.s_pos 0) } in
      (
        opened,
        (rw
            (
              open_file_lem (literal "/dev/stdout") 1 k refl six refl,
              printk_lem (line (codes "starting kernel...")) k.console refl,
              run,
              open_file_lem (literal "/dev/stdin") 0 k2 refl mounted.size refl,
            )
            refl),
        ap (λ q. q.console.screen) rest,
        ap (λ q. q.segs) rest,
        ap (λ r. r 0x200 + 2 ^ 8 * r 0x201) memory,
        ap (λ r. r 0x202 + 2 ^ 8 * r 0x203) memory,
        (λ p h. ap (λ r. r p) memory ∙ set_ivt_below k.ram p h),
        (λ p h. ap (λ r. r p) memory ∙ set_ivt_behind k.ram p h),
        IsMounted-open 0 (boot_sector_of (disk 0)) found k2 (omega arith) mounted,
      )

cleared-free :
    (table : List ProcessDesc) → free_slots (pids_of (map clear_pid table)) ≡ length table
unfolding free_slots
cleared-free [] = refl
cleared-free (d ∷ table) = ap suc (cleared-free table)

length-cleared : (table : List ProcessDesc) → length (pids_of (map clear_pid table)) ≡ length table
length-cleared [] = refl
length-cleared (d ∷ table) = ap suc (length-cleared table)

module _ (s : System) where
  -- Every round finds the segments as the one before left them.
  rounds-Post :
      (n nesting : ℕ) (name : List ℕ) (k : Kernel)
      → Distinct (addresses k.segs)
      → nesting ≤ free_segs k.segs
      → nesting ≤ length k.processes.table
      → Post (λ k'. k'.segs ≡ k.segs) (rounds s n nesting name k)
  unfolding rounds init_processes
  rounds-Post zero nesting name k distinct free slots = returns refl
  rounds-Post (suc n) nesting name k distinct free slots =
      let ready = record k { processes = init_processes k.processes } in
      let has : HasFree nesting (allocation ready) = record {
        distinct = distinct;
        segments = free;
        slots = omega (arith, cleared-free k.processes.table, slots);
      } in
      Post-bind (run_program s nesting name ready) (run_program-Restores s nesting name ready has)
        λ r h.
          let same : r.2.segs ≡ k.segs = ap (λ a. a.segs) h in
          let size : length r.2.processes.table ≡ length k.processes.table =
            sym (length-pids r.2.processes.table)
            ∙ ap (λ a. length a.pids) h
            ∙ length-cleared k.processes.table in
          weaken
            (rounds-Post n nesting r.1.name r.2
              (subst (λ t. Distinct (addresses t)) (sym same) distinct)
              (subst (λ t. nesting ≤ free_segs t) (sym same) free) (omega (arith, size, slots)))
            (λ k' g. g ∙ same)

  -- From a kernel with the segments of `init_seg` and its nine process slots on, whatever programs are
  -- on the disk, as long as they run one another at most eight deep: after any number of rounds of the
  -- loop of `startk` that come to an end, the eight segments for programs are all free again.
  pub rounds_lem :
      (n nesting : ℕ) (name : List ℕ) (k k' : Kernel)
      → k.segs ≡ init_seg
      → length k.processes.table ≡ 9
      → nesting ≤ 8
      → rounds s n nesting name k ≡ ok k'
      → k'.segs ≡ init_seg
  unfolding init_seg free_segs
  rounds_lem n nesting name k k' fresh nine deep run =
      let free : free_segs k.segs ≡ 8 = ap free_segs fresh in
      result_of
        (rounds-Post n nesting name k
          (subst (λ t. Distinct (addresses t)) (sym fresh) Distinct-init)
          (omega (arith, free, deep)) (omega (arith, nine, deep)))
        run
      ∙ fresh
