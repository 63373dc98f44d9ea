-- ===== src/Syscall/Files.antt =====
-- The system call that lists the root directory: `open`, `lseek` and `list_root_files` in `dispatch`,
-- and what a program finds in the block.
use rml.Base.{
  ℕ, zero, suc, ◌^◌, ◌≤◌, ◌<◌, List, [], ◌∷◌, ◌++◌, take, drop, take-append-drop, length,
  length-append, length-take, length-drop, All, update_at, get_elem?-update_at, length-update_at,
  modify_lem, Bool-cases, inl, inr, ok, ◌≡◌, refl, sym, ap, ◌∙◌, subst, arith,
}
use rml.Base.Post.{result_of}
use rml.Block.Transfer.{Serves}
use rml.Files.{get_root_offset, open_root_entry, lseek_in}
use rml.Kernel.{Kernel, lseek, on_table, index}
use rml.Kernel.Io.{IsDevice, at_offset}
use rml.Fs.Layout.{Fat16Entry, long_at}
use rml.Fs.Entry.{SyscallFileEntry, get_entry_type, is_file}
use rml.Fs.Mount.{some_at, open_root_lem}
use rml.Fs.Directory.{list_root_files}
use rml.Fs.Directory.Walk.{IsPlaced, RootAt, dir_entries}
use rml.Fs.Directory.Describes.{HasRoom, Lists, only_files, IsNamed}
use rml.Fs.Directory.Listing.{list_root_files_lem}
use rml.Fs.Directory.Sizes.{list_from-HasNames}
use rml.Params.{listings_in, put_listings, put_bytes, long_bytes}
use rml.Params.Laws.{long_at-behind, length-put_bytes}
use rml.Params.Listings.{
  IsSized, HasNames, listings_in-put_listings, listings_in-append, length-put_listings,
  length-listings_in, listings_in-HasNames,
}
use rml.Syscall.{System, list_files_call}

-- The size of a file has four bytes on the disk.
abbrev pub IsLong : Fat16Entry → Type 0
IsLong e = e.file_size < 2 ^ 32

only_files-IsLong : (es : List Fat16Entry) → All IsLong es → All IsLong (only_files es)
unfolding only_files
only_files-IsLong [] h = tt
only_files-IsLong (e ∷ es) h = elim (Bool-cases (is_file (get_entry_type e))) [
  | inl file ↦ (rw file (h.0, only_files-IsLong es h.1))
  | inr other ↦ (rw other (only_files-IsLong es h.1))
]

take-IsLong : (n : ℕ) (es : List Fat16Entry) → All IsLong es → All IsLong (take n es)
take-IsLong zero es h = tt
take-IsLong (suc n) [] h = tt
take-IsLong (suc n) (e ∷ es) h = (h.0, take-IsLong n es h.1)

-- A listing of a directory entry fits its place.
Lists-IsSized :
    (es : List Fat16Entry) (ls : List SyscallFileEntry)
    → Lists es ls
    → All IsLong es
    → All HasNames ls
    → All IsSized ls
Lists-IsSized [] [] d h n = tt
Lists-IsSized [] (l ∷ ls) d h n = absurd d
Lists-IsSized (e ∷ es) [] d h n = absurd d
Lists-IsSized (e ∷ es) (l ∷ ls) (d, ds) h n = (
  record {
    name = n.0.0;
    ext = n.0.1;
    dir = omega (arith, d.dir);
    read_only = omega (arith, d.read_only);
    size = omega (arith, d.size, h.0);
    day = omega (arith, d.day);
    month = omega (arith, d.month);
    year = omega (arith, d.year);
    seconds = omega (arith, d.seconds);
    minutes = omega (arith, d.minutes);
    hours = omega (arith, d.hours);
  },
  Lists-IsSized es ls ds h.1 n.1,
)

HasNames-HasRoom : (ls : List SyscallFileEntry) → All HasNames ls → All HasRoom ls
HasNames-HasRoom [] h = tt
HasNames-HasRoom (l ∷ ls) h =
    ((omega (arith, h.0.0), omega (arith, h.0.1)), HasNames-HasRoom ls h.1)

front-HasNames : (ls more : List SyscallFileEntry) → All HasNames (ls ++ more) → All HasNames ls
front-HasNames [] more h = tt
front-HasNames (l ∷ ls) more h = (h.0, front-HasNames ls more h.1)

-- The kernel with the root directory open at its first entry.
abbrev at_root : Kernel → Kernel
at_root k = record k {
  fd_list = update_at (update_at k.fd_list 5 (open_root_entry k.s_pos)) 5 (at_offset 0);
}

root_ready :
    (start : ℕ) (k : Kernel)
    → length k.fd_list ≡ 6
    → IsDevice 4 k
    → get_root_offset k.s_pos ≡ start
    → RootAt start 0 (at_root k)
root_ready start k six (d4, found4, own) place =
    let (d, found) = some_at k.fd_list 5 (omega arith) in
    let t1 = update_at k.fd_list 5 (open_root_entry k.s_pos) in
    record {
      root = at_offset 0 (open_root_entry k.s_pos d);
      found = ground (
        arith,
        get_elem?-update_at t1 5 5 (at_offset 0),
        get_elem?-update_at k.fd_list 5 5 (open_root_entry k.s_pos),
        found,
      );
      below = refl;
      offset = place;
      position = refl;
      drive = (
        d4,
        ground (
          arith,
          get_elem?-update_at t1 5 4 (at_offset 0),
          get_elem?-update_at k.fd_list 5 4 (open_root_entry k.s_pos),
          found4,
        ),
        own,
      );
    }

seek_root :
    (k : Kernel)
    → length k.fd_list ≡ 6
    → lseek 5 0 0 (record k { fd_list = update_at k.fd_list 5 (open_root_entry k.s_pos) })
      ≡ ok (0, at_root k)
unfolding lseek on_table lseek_in
seek_root k six =
    let t1 = update_at k.fd_list 5 (open_root_entry k.s_pos) in
    rw
      (modify_lem t1 5 (at_offset 0)
        (omega (arith, six, length-update_at k.fd_list 5 (open_root_entry k.s_pos))))
      refl

-- There are no more listings than places.
pub Lists-le :
    (n : ℕ) (es : List Fat16Entry) (ls : List SyscallFileEntry)
    → Lists (take n es) ls
    → length ls ≤ n
Lists-le zero es [] d = omega arith
Lists-le zero es (l ∷ ls) d = absurd d
Lists-le (suc n) [] [] d = omega arith
Lists-le (suc n) [] (l ∷ ls) d = absurd d
Lists-le (suc n) (e ∷ es) [] d = omega arith
Lists-le (suc n) (e ∷ es) (l ∷ ls) d = omega (arith, Lists-le n es ls d.1)

-- The block with listings and their number, read back.
block_read :
    (stored more : List SyscallFileEntry) (params : List ℕ)
    → length params ≡ 576
    → length (stored ++ more) ≡ 18
    → All IsSized stored
    → All HasNames (stored ++ more)
    → let n = length stored in
      let block = put_bytes 512 (long_bytes n) (put_listings (stored ++ more) params) in
      (long_at block 512 ≡ n) × (listings_in n block ≡ stored) × (length block ≡ 576)
block_read stored more params size all sized names =
    let n = length stored in
    let filled = put_listings (stored ++ more) params in
    let few : n ≤ 18 = omega (arith, length-append stored more, all) in
    let same : length filled ≡ 576 =
      length-put_listings (stored ++ more) params names (omega (arith, all, size)) ∙ size in
    let front : length (take 512 filled) ≡ 512 = length-take 512 filled (omega (arith, same)) in
    (
      long_at-behind 512 (take 512 filled) (long_bytes n ++ drop 516 filled) 0 front ∙ omega arith,
      listings_in-append n (take 512 filled) (long_bytes n ++ drop 516 filled) (drop 512 filled)
            (omega (arith, front))
          ∙ ap (λ b. listings_in n b) (take-append-drop 512 filled)
          ∙ listings_in-put_listings stored more params sized (omega (arith, size)),
      length-put_bytes 512 (long_bytes n) filled (omega (arith, same)) ∙ same,
    )

module _ (s : System) {disk : ℕ → List ℕ} (served : Serves s.machine.bios 1 disk) where
  -- The block has 576 bytes, the kernel six descriptors and descriptor 4 for a device; the root directory
  -- begins at `start`, lies on whole sectors of the disk and touches no last sector of a track; its
  -- files all have names and sizes of four bytes, and its entries are fewer than the fuel. System
  -- call 9 ends. In the block that the program gets back stand the number of listings and, in the
  -- order of the directory, a listing for each of its files, for the first 18 of them: the name and
  -- the extension up to the first space, the attributes, the size, the date and the time. Of the
  -- kernel only the table of descriptors has changed.
  pub list_files_call_lem :
      (start : ℕ) (params : List ℕ) (k : Kernel)
      → length params ≡ 576
      → length k.fd_list ≡ 6
      → IsDevice 4 k
      → get_root_offset k.s_pos ≡ start
      → IsPlaced start k.bs.root_dir_entries
      → k.bs.root_dir_entries < s.fuel
      → All IsNamed (dir_entries disk start 0 k.bs.root_dir_entries)
      → All IsLong (dir_entries disk start 0 k.bs.root_dir_entries)
      → (block : List ℕ) × (k' : Kernel) × (list_files_call s params k ≡ ok (block, k'))
        × Lists
            (take 18 (only_files (dir_entries disk start 0 k.bs.root_dir_entries)))
            (listings_in (long_at block 512) block)
        × (length block ≡ 576)
        × (k' ≡ record k { fd_list = k'.fd_list })
  unfolding list_files_call index list_root_files
  list_files_call_lem start params k size six device place placed enough named long =
      let buf = listings_in 18 params in
      let es = dir_entries disk start 0 k.bs.root_dir_entries in
      let buf_names = listings_in-HasNames 18 params (omega (arith, size)) in
      let buf_size = length-listings_in 18 params in
      let (stored, k', run, lists, rest) =
        list_root_files_lem s.machine served s.fuel 512 start buf (at_root k) placed enough
          (omega (arith, buf_size)) (HasNames-HasRoom buf buf_names) named
          (root_ready start k six device place) in
      let more = drop (length stored) buf in
      let names =
        result_of (list_from-HasNames s.machine s.fuel 18 0 buf (at_root k) buf_names) run in
      let sized =
        Lists-IsSized (take 18 (only_files es)) stored lists
          (take-IsLong 18 (only_files es) (only_files-IsLong es long))
          (front-HasNames stored more names) in
      let all : length (stored ++ more) ≡ 18 = omega (
        arith,
        length-append stored more,
        length-drop (length stored) buf,
        Lists-le 18 (only_files es) stored lists,
        buf_size,
      ) in
      let (count, back, block_size) = block_read stored more params size all sized names in
      let block =
        put_bytes 512 (long_bytes (length stored)) (put_listings (stored ++ more) params) in
      (
        block,
        k',
        (rw (open_root_lem k six, seek_root k six, run) refl),
        subst (λ l. Lists (take 18 (only_files es)) l)
            (sym (ap (λ n. listings_in n block) count ∙ back)) lists,
        block_size,
        rest,
      )
