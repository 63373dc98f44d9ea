-- ===== src/Program/Load/Found.antt =====
-- `load` of kernel/kernel.c where the file is found: what then stands in memory.
use rml.Base.{
  ℕ, suc, ◌+◌, ◌*◌, ◌^◌, ◌≤◌, ◌<◌, true, List, length, update_at, some, ok, ◌≡◌, refl, sym, ap, ◌∙◌,
  subst, arith,
}
use rml.Block.Transfer.{Serves}
use rml.Clib.Text.Scan.{text_of, has_nul}
use rml.Clib.Letters.{toupper}
use rml.Mm.{get_free_seg}
use rml.Files.{FileDescriptor}
use rml.Kernel.{Kernel}
use rml.Sched.{Processes, NewProc, register_proc, get_running_proc}
use rml.Sched.Table.{HaveRoom, first_free, registered, register_proc_lem}
use rml.Fs.Volume.{cluster_size}
use rml.Fs.Volume.Memory.{in_place}
use rml.Fs.Volume.Load.{places_of, IsChain, file_bytes, load_file_content_lem}
use rml.Fs.Layout.{Fat16Entry}
use rml.Syscall.{System}
use rml.Program.{load_found, load}
use rml.Program.Load.{upper, upper_text, length-map, HasFiles, file_named, load_finds}

module _ (s : System) {disk : ℕ → List ℕ} (served : Serves s.machine.bios 1 disk) where
  pub load_lem :
      (e : ℕ → ℕ) (fuel start n i : ℕ) (name : List ℕ) (file : Fat16Entry) (k : Kernel)
      → s.fuel ≡ suc fuel
      → HasFiles s disk start k
      → has_nul name ≡ true
      → length (text_of name) < s.fuel
      → length (text_of name) < 32
      → HaveRoom k.processes.table
      → first_free k.processes.table ≡ some i
      → file_named disk start k name ≡ some file
      → ((c : ℕ) → e c < 4096)
      → cluster_size k.bs ≡ 4096
      → IsChain disk e (places_of k) n file.starting_cluster
      → n < s.fuel
      → 4096 * (n + 1) ≤ 2 ^ 16
      → length s.stale_cluster ≡ 4096
      → (get_free_seg s.stale_segment k.segs).0 < 2 ^ 16
      → let (segment, segs) = get_free_seg s.stale_segment k.segs in
        (k' : Kernel) × (load s name k
          ≡ ok (record { retcode = 0; pid = i + 1; segment = segment; name = upper name }, k'))
        × ((p : ℕ)
            → k'.ram p
              ≡ in_place
                  (segment * 16)
                  (4096 * (n + 1))
                  (file_bytes disk e (places_of k) n file.starting_cluster)
                  k.ram
                  p)
        × (k'.processes ≡ record k.processes {
          table = update_at k.processes.table i (
              registered i (record {
                name = upper name;
                cs = segment;
                ds = segment;
                ss = segment;
                entry_point = 0;
                ppid = k.processes.current;
                size = file.file_size;
              }));
        })
        × (k' ≡ record k {
          segs = segs;
          fd_list = k'.fd_list;
          console = k'.console;
          ram = k'.ram;
          processes = k'.processes;
        })
  unfolding load_found get_running_proc
  load_lem e fuel start n i name file k some_fuel files ended short fits_name room slot found below
        size chain enough fits buffer low =
      let (segment, segs) = get_free_seg s.stale_segment k.segs in
      let (k1, run, root, more, rest) =
        load_finds s served fuel start name k some_fuel files ended short in
      let size1 : cluster_size k1.bs ≡ 4096 = ap (λ q. cluster_size q.bs) rest ∙ size in
      let places : places_of k1 ≡ places_of k = ap places_of rest in
      let chain1 = subst (λ v. IsChain disk e v n file.starting_cluster) (sym places) chain in
      let (k2, position, run2, memory, device, moved) =
        load_file_content_lem s.machine served e s.fuel n segment 0 file s.stale_cluster k1 below
          root.drive size1 chain1 enough low (omega (arith, fits)) buffer in
      let rest2 : k2 ≡ record k1 { fd_list = k2.fd_list; ram = k2.ram } =
        moved
        ∙ ap {A = List FileDescriptor} (λ t. record k1 { fd_list = t; ram = k2.ram })
            (sym (ap {A = Kernel} (λ q. q.fd_list) moved)) in
      let procs : k2.processes ≡ k.processes =
        ap (λ q. q.processes) rest2 ∙ ap (λ q. q.processes) rest in
      let (text, nul) = upper_text name ended in
      let proc : NewProc = record {
        name = upper name;
        cs = segment;
        ds = segment;
        ss = segment;
        entry_point = 0;
        ppid = k.processes.current;
        size = file.file_size;
      } in
      let after : Processes = record k.processes {
        table = update_at k.processes.table i (registered i proc);
      } in
      let fits_slot : length (text_of proc.name) < 32 =
        omega (arith, ap (λ t. length t) text, length-map toupper (text_of name), fits_name) in
      let registers : register_proc proc k2.processes ≡ ok (some (i + 1), after) =
        ap (λ p. register_proc proc p) procs
        ∙ register_proc_lem i proc k.processes room nul fits_slot slot in
      let current : k2.processes.current ≡ k.processes.current = ap (λ p. p.current) procs in
      (
        record k2 { processes = after },
        (rw (run, found, run2, current, registers) refl),
        (λ p.
            memory p
            ∙ ap
                (λ b.
                  in_place b (4096 * (n + 1))
                    (file_bytes disk e (places_of k1) n file.starting_cluster) k1.ram p)
                (omega arith)
            ∙ ap
                (λ q.
                  in_place (segment * 16) (4096 * (n + 1))
                    (file_bytes disk e (places_of q) n file.starting_cluster) q.ram p)
                rest),
        refl,
        ap {A = Kernel} (λ q. record q { processes = after }) rest2
            ∙ ap {A = Kernel}
                (λ q. record q { fd_list = k2.fd_list; ram = k2.ram; processes = after }) rest
            ∙ ap
                (λ c. record k {
                  segs = segs;
                  fd_list = k2.fd_list;
                  console = c;
                  ram = k2.ram;
                  processes = after;
                })
                (sym (ap (λ q. q.console) rest2)),
      )
