-- ===== src/Tests/Tables.antt =====
-- The theorems on the tables of the kernel at concrete inputs.
use rml.Base.{
  ℕ, zero, suc, ◌≤◌, pos, true, not, ◌&&◌, [], ◌∷◌, ◌++◌, replicate, ◌==◌, ok, stop, bounds,
  literal, ◌≡◌, refl, arith,
}
use rml.Clib.Text.Scan.{text_of, has_nul, lexicographic}
use rml.Mm.{Segs, init_seg, get_free_seg, release_seg}
use rml.Mm.Laws.{addresses, is_free, any_free, Distinct}
use rml.Mm.FreeList.{
  IsValid, init_seg-IsValid, IsValid-Distinct, get_free_seg_lem, release_seg-get_free_seg,
  get_free_seg-IsValid,
}
use rml.Files.{FileDescriptor, SectionPositions, open_in}
use rml.Files.Laws.{device_of, open_in_overflow}
use rml.Sched.{ProcessDesc, Processes, NewProc, ready, set_running_proc}
use rml.Sched.Running.{OneRunning, set_running_proc-OneRunning}

distinct : Distinct (addresses init_seg)
distinct = IsValid-Distinct init_seg-IsValid

some_free : any_free init_seg ≡ true
unfolding init_seg any_free
some_free = refl

get_free_seg_lem_example :
    (is_free 0x2000 init_seg ≡ true)
    × ((b : ℕ) → is_free b (get_free_seg 7 init_seg).1 ≡ (is_free b init_seg && not (b == 0x2000)))
    × (addresses (get_free_seg 7 init_seg).1 ≡ addresses init_seg)
unfolding get_free_seg init_seg
get_free_seg_lem_example = get_free_seg_lem 7 init_seg distinct some_free

abbrev full : Segs
full = record { used = 1; address = 0x2000 } ∷ record { used = 1; address = 0x3000 } ∷ []

release_seg-get_free_seg_example : (release_seg 0x2000 (get_free_seg 7 init_seg).1).1 ≡ init_seg
unfolding get_free_seg init_seg
release_seg-get_free_seg_example = release_seg-get_free_seg 7 init_seg distinct some_free

get_free_seg-IsValid_example :
    IsValid (get_free_seg 7 init_seg).1 × (0x2000 ≤ (get_free_seg 7 init_seg).0)
get_free_seg-IsValid_example = get_free_seg-IsValid 7 init_seg init_seg-IsValid some_free

abbrev closed : FileDescriptor
closed = record { pathname = 0 ∷ []; at = 3; size = 0; pfd = pos 0; pfd_offset = 0 }

abbrev sections : SectionPositions
sections = record {
  fat_section_start = 512;
  data_section_start = 16896;
  root_directory_start = 9728;
}

open_in_overflow_example : open_in sections (literal "/") (replicate 5 closed) ≡ stop bounds
unfolding has_nul text_of device_of lexicographic
open_in_overflow_example =
    open_in_overflow sections (literal "/") (replicate 5 closed) refl (omega arith)

abbrev slot : ℕ → ProcessDesc
slot pid = record {
  pid = pid;
  name = replicate 32 0;
  ss = 0;
  ds = 0;
  cs = 0;
  ip = 0;
  ppid = 0;
  size = 0;
  state = ready;
  files_table = [];
}

abbrev two_slots : Processes
two_slots = record { table = slot 1 ∷ slot 0 ∷ []; current = 1 }

abbrev shell : NewProc
shell = record {
  name = literal "shell";
  cs = 0x2000;
  ds = 0x2000;
  ss = 0x2000;
  entry_point = 0;
  ppid = 1;
  size = 4096;
}

abbrev busy : Processes
busy = record { table = slot 1 ∷ slot 2 ∷ []; current = 1 }

abbrev long_named : NewProc
long_named = record shell { name = replicate 32 b'x' ++ 0 ∷ [] }

none_running : OneRunning busy
none_running zero d e r = ground arith
none_running (suc zero) d e r = ground arith
none_running (suc (suc i)) d e r = ground arith

set_running_proc-OneRunning_example :
    (q : Processes) × (set_running_proc 2 busy ≡ ok q) × (q.current ≡ 2) × OneRunning q
set_running_proc-OneRunning_example =
    set_running_proc-OneRunning 1 busy (omega arith) (omega arith) none_running
