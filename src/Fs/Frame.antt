-- ===== src/Fs/Frame.antt =====
-- What fs/msdos/fs.c leaves alone when it reads directories and files: the segments, the pids of the
-- processes and which process runs.
use rml.Base.{
  ℕ, zero, suc, ◌+◌, ◌*◌, ◌/◌, u32, List, fetch, modify, ◌==◌, ltb, leb, not, ◌||◌, replicate, refl,
  ◌∙◌,
}
use rml.Base.Post.{Post, returns, stops, weaken, Post-if, Post-option_elim, Post-then, Post-bind}
use rml.Kernel.{Kernel, Machine, read, lseek}
use rml.Kernel.Frame.{Keeps, lseek-Keeps, read-Keeps}
use rml.Fs.Layout.{Fat16Entry}
use rml.Fs.Entry.{
  SyscallFileEntry, get_entry_type, is_file, first_byte, extract_file_name, listing_of,
}
use rml.Fs.Volume.{
  depth, read_at, read_cluster, get_next_cluster, load_to_memory, load_clusters, load_file_content,
}
use rml.Fs.Directory.{
  read_entry, print_entry, print_heading, root_files_from, get_root_files, get_root_next_file,
  list_from, list_root_files,
}

module _ (m : Machine) where
  read_at-Keeps :
      (position : ℕ) (buf : List ℕ) (count : ℕ) (k : Kernel)
      → Post (λ r. Keeps k r.1) (read_at m position buf count k)
  unfolding read_at
  read_at-Keeps position buf count k =
      Post-bind (lseek 4 position 0 k) (lseek-Keeps 4 position 0 k) λ r h.
        Post-bind (read m depth 4 buf count 0 r.1) (read-Keeps m depth 4 buf count 0 r.1)
          (λ q g. returns (g ∙ h))

  load_clusters-Keeps :
      (fuel curr segment offset : ℕ) (buf : List ℕ) (k : Kernel)
      → Post (λ k'. Keeps k k') (load_clusters m fuel curr segment offset buf k)
  unfolding load_clusters read_cluster get_next_cluster
  load_clusters-Keeps zero curr segment offset buf k = stops
  load_clusters-Keeps (suc fuel) curr segment offset buf k =
      Post-bind (read_cluster m buf curr k) (read_at-Keeps _ buf _ k) λ r h.
        Post-then (load_to_memory segment offset r.0 4096 r.1.ram) λ ram.
          Post-bind (get_next_cluster m curr (record r.1 { ram = ram }))
            (Post-bind (read_at m _ (replicate 4 0) 2 (record r.1 { ram = ram }))
              (read_at-Keeps _ (replicate 4 0) 2 (record r.1 { ram = ram })) (λ q g. returns g))
            λ q g.
              Post-if (ltb q.0 0x0ff8)
                (weaken (load_clusters-Keeps fuel q.0 segment (u32 (offset + 4096)) r.0 q.1)
                  (λ k' f. f ∙ g ∙ h))
                (returns (g ∙ h))

  pub load_file_content-Keeps :
      (fuel : ℕ) (file : Fat16Entry) (segment offset : ℕ) (buf : List ℕ) (k : Kernel)
      → Post (λ k'. Keeps k k') (load_file_content m fuel file segment offset buf k)
  unfolding load_file_content
  load_file_content-Keeps fuel file segment offset buf k =
      load_clusters-Keeps fuel file.starting_cluster segment offset buf k

  read_entry-Keeps : (k : Kernel) → Post (λ r. Keeps k r.1) (read_entry m k)
  unfolding read_entry
  read_entry-Keeps k =
      Post-bind (read m depth 5 (replicate 32 0) 32 0 k)
        (read-Keeps m depth 5 (replicate 32 0) 32 0 k) (λ r h. returns h)

  root_files_from-Keeps :
      (n i : ℕ) (files : List Fat16Entry) (k : Kernel)
      → Post (λ r. Keeps k r.1) (root_files_from m n i files k)
  unfolding root_files_from
  root_files_from-Keeps zero i files k = returns refl
  root_files_from-Keeps (suc n) i files k = Post-then (print_entry i k.console) λ con.
      Post-bind (read_entry m (record k { console = con }))
        (read_entry-Keeps (record k { console = con }))
        λ r h.
          Post-then (modify files i (λ _. r.0))
            λ files'. weaken (root_files_from-Keeps n (i + 1) files' r.1) (λ q g. g ∙ h)

  pub get_root_files-Keeps :
      (files : List Fat16Entry) (k : Kernel) → Post (λ r. Keeps k r.1) (get_root_files m files k)
  unfolding get_root_files
  get_root_files-Keeps files k = Post-bind (lseek 5 0 0 k) (lseek-Keeps 5 0 0 k) λ r h.
      Post-then (print_heading k.bs.root_dir_entries r.1.console) λ con.
        weaken (root_files_from-Keeps k.bs.root_dir_entries 0 files (record r.1 { console = con }))
          (λ q g. g ∙ h)

  get_root_next_file-Keeps : (k : Kernel) → Post (λ r. Keeps k r.1) (get_root_next_file m k)
  unfolding get_root_next_file
  get_root_next_file-Keeps k = Post-then (fetch k.fd_list 5) λ d.
      Post-if (leb (u32 (d.at + 32)) (k.bs.root_dir_entries * 32))
        (Post-bind (read_entry m k) (read_entry-Keeps k) (λ r h. returns h)) (returns refl)

  list_from-Keeps :
      (fuel left files_read : ℕ) (buf : List SyscallFileEntry) (k : Kernel)
      → Post (λ r. Keeps k r.2) (list_from m fuel left files_read buf k)
  unfolding list_from
  list_from-Keeps zero left files_read buf k = stops
  list_from-Keeps (suc fuel) zero files_read buf k = returns refl
  list_from-Keeps (suc fuel) (suc left) files_read buf k =
      Post-bind (get_root_next_file m k) (get_root_next_file-Keeps k) λ r h.
        Post-option_elim r.0 (returns h) λ e.
          Post-if (not (is_file (get_entry_type e)) || first_byte e == 0xe5)
            (weaken (list_from-Keeps fuel (suc left) files_read buf r.1) (λ q g. g ∙ h))
            (Post-if (first_byte e == 0x00) (returns h) (
              Post-then (extract_file_name (suc fuel) e) λ names.
                Post-then (fetch buf files_read) λ old.
                  Post-then (listing_of e names.0 names.1 old) λ stored.
                    Post-then (modify buf files_read (λ _. stored)) λ buf'.
                      weaken (list_from-Keeps fuel left (files_read + 1) buf' r.1) (λ q g. g ∙ h)))

  pub list_root_files-Keeps :
      (fuel size : ℕ) (buf : List SyscallFileEntry) (k : Kernel)
      → Post (λ r. Keeps k r.2) (list_root_files m fuel size buf k)
  unfolding list_root_files
  list_root_files-Keeps fuel size buf k = list_from-Keeps fuel (size / 28) 0 buf k
