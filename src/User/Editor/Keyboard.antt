-- ===== src/User/Editor/Keyboard.antt =====
-- What a program's `getchar` gives: the wrapper, the block, `dispatch` and the kernel's `read`.
use rml.Base.{
  ℕ, suc, ◌<◌, List, [], ◌∷◌, ◌++◌, take, drop, length, length-append, length-take, length-drop,
  update_at, modify_lem, fetch_lem, take-append_self, Outcome, ok, stop, blocked, ◌>>=◌, ◌≡◌, refl,
  ap, ◌∙◌, arith,
}
use rml.Clib.Text.Copy.{memcpy_lem}
use rml.Kernel.{Kernel, read, read_device, read_keys, advanced}
use rml.Kernel.Io.{IsDevice, lt_of_some}
use rml.Params.{data_of, set_data, set_fd, set_size, long_bytes, metadata_fd, metadata_size}
use rml.Fs.Volume.{depth}
use rml.Sched.{get_running_proc}
use rml.Syscall.{System, dispatch, file_call, read_call}
use rml.User.{User, Os, syscall, myread}
use rml.Params.Laws.{length-put_bytes, drop-put_bytes}
use rml.User.Laws.{stream, stream_fd, stream_size, length-stream}
use rml.User.Stdio.{getchar}
use rml.User.Printf.{IsRunning}

module _ (s : System) where
  -- The kernel's `read` of the keyboard, when a key is there.
  read_key :
      (fuel c : ℕ) (buf keys : List ℕ) (pid : ℕ) (k : Kernel)
      → IsDevice 0 k
      → k.keys ≡ c ∷ keys
      → 0 < length buf
      → read s.machine (suc fuel) 0 buf 1 pid k
        ≡ ok (
          0,
          c ∷ drop 1 buf,
          record k { fd_list = update_at k.fd_list 0 (advanced 0); keys = keys },
        )
  unfolding read read_device read_keys
  read_key fuel c [] keys pid k (d, found, own) key h = absurd (omega arith)
  read_key fuel c (b ∷ buf) keys pid k (d, found, own) key h =
      rw (fetch_lem k.fd_list 0 d found, own, key)
        (rw (modify_lem k.fd_list 0 (advanced 0) (lt_of_some 0 k.fd_list d found)) refl)

  -- And when there is none.
  read_no_key :
      (fuel : ℕ) (buf : List ℕ) (pid : ℕ) (k : Kernel)
      → IsDevice 0 k
      → k.keys ≡ []
      → 0 < length buf
      → read s.machine (suc fuel) 0 buf 1 pid k ≡ stop blocked
  unfolding read read_device read_keys
  read_no_key fuel [] pid k (d, found, own) none_left h = absurd (omega arith)
  read_no_key fuel (b ∷ buf) pid k (d, found, own) none_left h =
      rw (fetch_lem k.fd_list 0 d found, own, none_left) refl

-- The block as `myread` fills it.
abbrev asked : ℕ → List ℕ → List ℕ
asked count block = stream (take 512 (set_fd 0 block)) count 0 (drop 520 block)

asked_filled :
    (count : ℕ) (block : List ℕ)
    → length block ≡ 576
    → set_size count (set_fd 0 block) ≡ asked count block
asked_filled count block h =
    ap (λ t. take 512 (set_fd 0 block) ++ (long_bytes count ++ t))
      (drop-put_bytes 516 (long_bytes 0) block (omega (arith, h)))

asked_size : (block : List ℕ) → length block ≡ 576 → length (take 512 (set_fd 0 block)) ≡ 512
asked_size block h =
    length-take 512 (set_fd 0 block)
      (omega (arith, length-put_bytes 516 (long_bytes 0) block (omega (arith, h)), h))

-- What `read` gives, as the block that goes back.
abbrev to_block : List ℕ → ℕ × List ℕ × Kernel → Outcome (List ℕ × Kernel)
to_block block (n, buf, k) = ok (set_data buf block, k)

module _ (s : System) where
  read_stream :
      (block bytes : List ℕ) (fd count : ℕ) (k : Kernel)
      → metadata_fd block ≡ fd
      → data_of block ≡ bytes
      → metadata_size block ≡ count
      → read_call s block k
        ≡ (read s.machine depth fd bytes count (get_running_proc k.processes) k >>= to_block block)
  unfolding read_call
  read_stream block bytes fd count k at_fd at_data at_size =
      let pid = get_running_proc k.processes in
      ap
        (λ f. read s.machine depth f (data_of block) (metadata_size block) pid k >>= to_block block)
        at_fd
      ∙ ap (λ b. read s.machine depth fd b (metadata_size block) pid k >>= to_block block) at_data
      ∙ ap (λ n. read s.machine depth fd bytes n pid k >>= to_block block) at_size

  asked_call :
      (block : List ℕ) (k : Kernel)
      → length block ≡ 576
      → read_call s (asked 1 block) k ≡ (
          read s.machine depth 0 (take 512 (set_fd 0 block)) 1 (get_running_proc k.processes) k
          >>= to_block (asked 1 block))
  asked_call block k h =
      let size = asked_size block h in
      read_stream (asked 1 block) (take 512 (set_fd 0 block)) 0 1 k
        (stream_fd (take 512 (set_fd 0 block)) 1 0 (drop 520 block) size (omega arith))
        (take-append_self 512 (take 512 (set_fd 0 block)) _ size)
        (stream_size (take 512 (set_fd 0 block)) 1 0 (drop 520 block) size (omega arith))

-- The kernel behind one key.
abbrev pub key_taken : List ℕ → Kernel → Kernel
key_taken keys k = record k { fd_list = update_at k.fd_list 0 (advanced 0); keys = keys }

module _ (o : Os) where
  -- Descriptor 0 of the kernel is a device and a key is there. A program with its block gets it from
  -- `getchar`; the key is gone from the keyboard, and but for the position of descriptor 0 and the
  -- content of the block nothing else changes.
  pub getchar_lem :
      (stale c : ℕ) (keys : List ℕ) (u : User)
      → IsRunning u
      → IsDevice 0 u.kernel
      → u.kernel.keys ≡ c ∷ keys
      → (block : List ℕ) × (getchar o stale u
          ≡ ok (c, record u { kernel = key_taken keys u.kernel; sysparam = block }))
        × (length block ≡ 576)
  unfolding getchar myread syscall dispatch file_call
  getchar_lem stale c keys u running device key =
      let block = u.sysparam in
      let bytes = take 512 (set_fd 0 block) in
      let size = asked_size block running.block in
      let got = c ∷ drop 1 bytes in
      let back = set_data got (asked 1 block) in
      let one : length got ≡ 512 = omega (arith, length-drop 1 bytes, size) in
      let there = asked_call o.system block u.kernel running.block in
      let taken =
        read_key o.system 1 c bytes keys (get_running_proc u.kernel.processes) u.kernel device key
          (omega (arith, size)) in
      let whole =
        length-stream bytes 1 0 (drop 520 block) size
          (omega (arith, length-drop 520 block, running.block)) in
      (
        back,
        (rw
            (
              asked_filled 1 block running.block,
              there,
              taken,
              memcpy_lem (stale ∷ []) (data_of back) 1 (omega arith) (omega arith),
            )
            refl),
        omega (
          arith,
          length-append got (drop 512 (asked 1 block)),
          length-drop 512 (asked 1 block),
          one,
          whole,
        ),
      )

  -- With no key to come the program waits for ever.
  pub getchar_blocked :
      (stale : ℕ) (u : User)
      → IsRunning u
      → IsDevice 0 u.kernel
      → u.kernel.keys ≡ []
      → getchar o stale u ≡ stop blocked
  unfolding getchar myread syscall dispatch file_call
  getchar_blocked stale u running device none_left =
      let block = u.sysparam in
      let bytes = take 512 (set_fd 0 block) in
      let size = asked_size block running.block in
      rw
        (
          asked_filled 1 block running.block,
          asked_call o.system block u.kernel running.block,
          read_no_key o.system 1 bytes (get_running_proc u.kernel.processes) u.kernel device
              none_left (omega (arith, size)),
        )
        refl
