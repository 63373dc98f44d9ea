-- ===== src/Kernel/Frame.antt =====
-- What the file operations of kernel/kernio.c leave alone: the segments, the pids of the processes and
-- which process runs.
use rml.Base.{
  ℕ, zero, suc, ◌+◌, u32, List, [], ◌∷◌, map, length, fetch, modify, ◌==◌, ◌||◌, if◌then◌else◌,
  Outcome, ◌≡◌, refl, ap, ◌∙◌,
}
use rml.Base.Post.{Post, returns, stops, weaken, Post-if, Post-then, Post-bind}
use rml.Block.{read_drive}
use rml.Files.{FileDescriptor}
use rml.Mm.{Segs}
use rml.Sched.{ProcessDesc}
use rml.Kernel.{
  Kernel, Machine, with_files, on_table, open_file, close, lseek, index, has_parent, print_errors,
  read_keys, read_device, read, advanced,
}

-- The allocation state: the segments, the pids and the running process.
pub record Allocation : Type 0 where
  pub segs : Segs
  pub pids : List ℕ
  pub current : ℕ

abbrev pub pids_of : List ProcessDesc → List ℕ
pids_of table = map (λ d. d.pid) table

pub length-pids : (table : List ProcessDesc) → length (pids_of table) ≡ length table
length-pids [] = refl
length-pids (d ∷ table) = ap suc (length-pids table)

abbrev pub allocation : Kernel → Allocation
allocation k = record {
  segs = k.segs;
  pids = pids_of k.processes.table;
  current = k.processes.current;
}

-- A kernel with the same allocation.
abbrev pub Keeps : Kernel → Kernel → Type 0
Keeps k k' = allocation k' ≡ allocation k

pub modify-pids :
    (table : List ProcessDesc) (i : ℕ) (f : ProcessDesc → ProcessDesc)
    → ((d : ProcessDesc) → (f d).pid ≡ d.pid)
    → Post (λ table'. pids_of table' ≡ pids_of table) (modify table i f)
unfolding modify
modify-pids [] i f same = stops
modify-pids (d ∷ table) zero f same = returns (ap (λ p. p ∷ pids_of table) (same d))
modify-pids (d ∷ table) (suc i) f same =
    Post-bind (modify table i f) (modify-pids table i f same)
      (λ table' h. returns (ap (λ l. d.pid ∷ l) h))

pub on_table-Keeps :
    {A : Type 0} (pid : ℕ) (f : List FileDescriptor → Outcome (A × List FileDescriptor))
    (k : Kernel)
    → Post (λ r. Keeps k r.1) (on_table pid f k)
unfolding on_table
on_table-Keeps zero f k = Post-then (f k.fd_list) (λ r. returns refl)
on_table-Keeps (suc i) f k = Post-then (fetch k.processes.table i) λ d.
    Post-then (f d.files_table) λ r.
      Post-bind (modify k.processes.table i (with_files r.1))
        (modify-pids k.processes.table i (with_files r.1) (λ d. refl))
        (λ table h.
          returns (ap (λ l. record { segs = k.segs; pids = l; current = k.processes.current }) h))

pub open_file-Keeps :
    (path : List ℕ) (pid : ℕ) (k : Kernel) → Post (λ r. Keeps k r.1) (open_file path pid k)
unfolding open_file
open_file-Keeps path pid k = on_table-Keeps pid _ k

pub close-Keeps : (fd pid : ℕ) (k : Kernel) → Post (λ r. Keeps k r.1) (close fd pid k)
unfolding close
close-Keeps fd pid k = on_table-Keeps pid _ k

pub lseek-Keeps : (fd offset pid : ℕ) (k : Kernel) → Post (λ r. Keeps k r.1) (lseek fd offset pid k)
unfolding lseek
lseek-Keeps fd offset pid k = on_table-Keeps pid _ k

module _ (m : Machine) where
  read_device-Keeps :
      (fd : ℕ) (d : FileDescriptor) (buf : List ℕ) (count : ℕ) (k : Kernel)
      → Post (λ r. Keeps k r.2) (read_device m fd d buf count k)
  unfolding read_device
  read_device-Keeps fd d buf count k =
      Post-if (fd == 3 || fd == 4)
        (Post-then (read_drive m.bios (if fd == 3 then 0 else 1) d.at count m.stale_sector buf)
          (λ r. Post-then (print_errors r.1 k.console) (λ con. returns refl)))
        (Post-if (fd == 0) (Post-then (read_keys count k.keys buf) (λ r. returns refl))
          (returns refl))

  -- `read`, through however many descriptors.
  pub read-Keeps :
      (fuel fd : ℕ) (buf : List ℕ) (count pid : ℕ) (k : Kernel)
      → Post (λ r. Keeps k r.2) (read m fuel fd buf count pid k)
  unfolding read
  read-Keeps zero fd buf count pid k = stops
  read-Keeps (suc fuel) fd buf count pid k = Post-then (fetch k.fd_list fd) λ d.
      Post-bind _
        (Post-if (has_parent d.pfd)
          (Post-then (index d.pfd) λ under.
            Post-bind (lseek under (u32 (d.pfd_offset + d.at)) pid k)
              (lseek-Keeps under (u32 (d.pfd_offset + d.at)) pid k)
              λ r h. weaken (read-Keeps fuel under buf count 0 r.1) (λ q g. g ∙ h))
          (read_device-Keeps fd d buf count k))
        (λ q g. Post-then (modify q.2.fd_list fd (advanced q.0)) (λ t. returns g))
