-- ===== src/Program/Load.antt =====
-- `load` and `run_program` of kernel/kernel.c against the disk: the search for the file, and
-- the refusal where there is none.
pub mod Found
use rml.Base.{
  take_all, subst, sym, ℕ, zero, suc, ◌+◌, ◌*◌, ◌^◌, ◌≤◌, ◌<◌, true, List, [], ◌∷◌, ◌++◌, map,
  length, drop, All, update_at, Option, none, some, ok, ◌≡◌, refl, sym, ap, ◌∙◌, subst, arith,
}
use rml.Block.Transfer.{Serves}
use rml.Clib.Text.Scan.{text_of, has_nul}
use rml.Clib.Letters.{toupper}
use rml.Clib.Letters.Laws.{tail_of, toupper_keeps, stoupper-stolower_lem}
use rml.Console.Numbers.{IsReady, Extends}
use rml.Mm.{get_free_seg, release_seg}
use rml.Mm.Laws.{addresses, Distinct, any_free}
use rml.Mm.FreeList.{release_seg-get_free_seg}
use rml.Kernel.{Kernel}
use rml.Sched.{Processes, NewProc, register_proc, get_running_proc}
use rml.Sched.Table.{HaveRoom, first_free, registered, register_proc_lem}
use rml.Fs.Volume.{cluster_size}
use rml.Fs.Volume.Memory.{in_place}
use rml.Fs.Volume.Load.{places_of, IsChain, file_bytes, load_file_content_lem}
use rml.Fs.Layout.{Fat16Entry}
use rml.Fs.Entry.{get_file}
use rml.Fs.Entry.Names.{first_named, get_file_lem}
use rml.Fs.Directory.Walk.{IsPlaced, RootAt, dir_entries}
use rml.Fs.Directory.Whole.{get_root_files_lem}
use rml.Fs.Directory.Describes.{IsNamed}
use rml.Syscall.{System, only_name}
use rml.Program.{load_found, load, run_program}

-- A terminated string in capitals, with what stands behind its text.
abbrev pub upper : List ℕ → List ℕ
upper name = map toupper (text_of name) ++ tail_of name

pub upper_text :
    (name : List ℕ)
    → has_nul name ≡ true
    → (text_of (upper name) ≡ map toupper (text_of name)) × (has_nul (upper name) ≡ true)
unfolding text_of has_nul
upper_text [] h = cc
upper_text (c ∷ name) h = ground (arith, toupper_keeps c, upper_text name)

pub length-map : (f : ℕ → ℕ) (l : List ℕ) → length (map f l) ≡ length l
length-map f [] = refl
length-map f (c ∷ l) = ap suc (length-map f l)

length-dir_entries : (disk : ℕ → List ℕ) (start i n : ℕ) → length (dir_entries disk start i n) ≡ n
unfolding dir_entries
length-dir_entries disk start i zero = refl
length-dir_entries disk start i (suc n) = ap suc (length-dir_entries disk start (i + 1) n)

-- `get_file` looks at no entry but the first `n`.
get_file-append :
    (fuel n : ℕ) (es rest : List Fat16Entry) (name : List ℕ)
    → length es ≡ n
    → get_file fuel n (es ++ rest) name ≡ get_file fuel n es name
unfolding get_file
get_file-append fuel zero es rest name h = refl
get_file-append fuel (suc n) [] rest name h = absurd (omega arith)
get_file-append fuel (suc n) (e ∷ es) rest name h =
    rw (get_file-append fuel n es rest name (omega arith)) refl

-- The mounted volume as `load` needs it: the root directory from `start` on, read through
-- descriptor 5, with fewer than a million entries, for which `file_list` has room, and names for all files.
pub record HasFiles (s : System) (disk : ℕ → List ℕ) (start : ℕ) (k : Kernel) : Type 0 where
  pub placed : IsPlaced start k.bs.root_dir_entries
  pub small : k.bs.root_dir_entries < 10 ^ 6
  pub room : k.bs.root_dir_entries ≤ length s.stale_files
  pub named : All IsNamed (dir_entries disk start 0 k.bs.root_dir_entries)
  pub place : ℕ
  pub root : RootAt start place k
  pub ready : IsReady k.console

-- The first file of a name in capitals.
abbrev pub file_named : (ℕ → List ℕ) → ℕ → Kernel → List ℕ → Option Fat16Entry
file_named disk start k name =
    first_named k.bs.root_dir_entries (map toupper (text_of name))
      (dir_entries disk start 0 k.bs.root_dir_entries)

module _ (s : System) {disk : ℕ → List ℕ} (served : Serves s.machine.bios 1 disk) where
  -- `load` up to the entry that is found.
  pub load_finds :
      (fuel start : ℕ) (name : List ℕ) (k : Kernel)
      → s.fuel ≡ suc fuel
      → HasFiles s disk start k
      → has_nul name ≡ true
      → length (text_of name) < s.fuel
      → let (segment, segs) = get_free_seg s.stale_segment k.segs in
        (k1 : Kernel) × (load s name k
          ≡ load_found s (file_named disk start k name) segment (upper name) k1)
        × RootAt start (32 * k.bs.root_dir_entries) k1
        × Extends k.console k1.console
        × (k1 ≡ record k { segs = segs; fd_list = k1.fd_list; console = k1.console })
  unfolding load
  load_finds fuel start name k some_fuel files ended short =
      let segs = (get_free_seg s.stale_segment k.segs).1 in
      let taken = record k { segs = segs } in
      let root : RootAt start files.place taken = record {
        root = files.root.root;
        found = files.root.found;
        below = files.root.below;
        offset = files.root.offset;
        position = files.root.position;
        drive = files.root.drive;
      } in
      let n = k.bs.root_dir_entries in
      let es = dir_entries disk start 0 n in
      let (k1, run, root1, more, rest) =
        get_root_files_lem s.machine served start files.place s.stale_files taken files.placed
          files.small files.room root files.ready in
      let (text, nul) = upper_text name ended in
      let looked : get_file s.fuel n (es ++ drop n s.stale_files) (upper name)
          ≡ ok (file_named disk start k name) =
        get_file-append s.fuel n es (drop n s.stale_files) (upper name)
          (length-dir_entries disk start 0 n)
        ∙ ap (λ f. get_file f n es (upper name)) some_fuel
        ∙ get_file_lem fuel n es (upper name) (omega (arith, length-dir_entries disk start 0 n)) nul
            (subst (λ t. All IsNamed t)
              (sym (take_all n es (omega (arith, length-dir_entries disk start 0 n)))) files.named)
        ∙ ap (λ t. ok (first_named n t es)) text in
      let count : k1.bs.root_dir_entries ≡ n = ap (λ q. q.bs.root_dir_entries) rest in
      (
        k1,
        (rw (run, (stoupper-stolower_lem s.fuel name ended short).0, count, looked) refl),
        root1,
        more,
        rest,
      )

  -- Let the mounted volume be as `HasFiles` says: a placed root directory of fewer than a million
  -- entries that fit `file_list`, names for its files, descriptor 5 on it. Let no file of it have
  -- the name in capitals, a segment be free, no two segments have one address, the name be
  -- terminated and fuel pass its length. `run_program` returns 1, the name in capitals, and a
  -- kernel of which, segments included, only the table of descriptors and the screen have changed;
  -- descriptor 5 stands behind the last entry.
  pub run_program_missing :
      (nesting fuel start : ℕ) (name : List ℕ) (k : Kernel)
      → s.fuel ≡ suc fuel
      → HasFiles s disk start k
      → has_nul name ≡ true
      → length (text_of name) < s.fuel
      → Distinct (addresses k.segs)
      → any_free k.segs ≡ true
      → file_named disk start k name ≡ none
      → (k' : Kernel) × (run_program s (suc nesting) name k ≡ ok (1, only_name (upper name), k'))
        × RootAt start (32 * k.bs.root_dir_entries) k'
        × Extends k.console k'.console
        × (k' ≡ record k { fd_list = k'.fd_list; console = k'.console })
  unfolding run_program load_found
  run_program_missing nesting fuel start name k some_fuel files ended short distinct free missing =
      let (segment, segs) = get_free_seg s.stale_segment k.segs in
      let (k1, run, root, more, rest) = load_finds fuel start name k some_fuel files ended short in
      let back : (release_seg segment k1.segs).1 ≡ k.segs =
        ap (λ q. (release_seg segment q.segs).1) rest
        ∙ release_seg-get_free_seg s.stale_segment k.segs distinct free in
      (
        record k1 { segs = (release_seg segment k1.segs).1 },
        (rw (run, missing) refl),
        record {
          root = root.root;
          found = root.found;
          below = root.below;
          offset = root.offset;
          position = root.position;
          drive = root.drive;
        },
        more,
        ap {A = Kernel} (λ q. record q { segs = (release_seg segment k1.segs).1 }) rest
            ∙ ap (λ t. record k { segs = t; fd_list = k1.fd_list; console = k1.console }) back,
      )
