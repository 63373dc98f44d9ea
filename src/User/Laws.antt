-- ===== src/User/Laws.antt =====
-- What a program's `write` shows: the wrapper, the block, `dispatch` and the kernel's `write` together.
use mathlib.Core.List.{append-nil, append_assoc}
use rml.Base.{
  ℕ, zero, suc, ◌^◌, ◌≤◌, ◌<◌, true, ◌||◌, List, [], ◌∷◌, ◌++◌, take, drop, length, length-append,
  length-take, length-drop, take-append_self, ◌==◌, Outcome, ok, stop, ◌>>=◌, ◌≡◌, refl, ap, ◌∙◌,
  arith,
}
use rml.Clib.Text.Copy.{memcpy_lem}
use rml.Console.{Console, put_chars, write}
use rml.Kernel.{Kernel}
use rml.Params.Laws.{long_at-behind, drop-put_bytes, length-put_bytes}
use rml.Params.{data_of, set_data, metadata_fd, metadata_size, set_fd, set_size, long_bytes}
use rml.Syscall.{put, print_call, dispatch}
use rml.User.{User, Os, with_block, syscall, mywrite}

-- The kernel with some more text on the screen.
abbrev pub shown : List ℕ → Kernel → Kernel
shown s k = record k { console = record k.console { screen = k.console.screen ++ s } }

pub put_chars_lem :
    (s : List ℕ) (n : ℕ) (con : Console)
    → n ≤ length s
    → put_chars s n con ≡ ok (record con { screen = con.screen ++ take n s })
unfolding put_chars
put_chars_lem s zero con h = rw append-nil
put_chars_lem [] (suc n) con h = absurd (omega arith)
put_chars_lem (c ∷ s) (suc n) con h = rw (
  put_chars_lem s n (record con { screen = con.screen ++ c ∷ [] }) (omega arith),
  append_assoc con.screen (c ∷ []) (take n s),
)

-- The block as `mywrite` fills it.
abbrev pub stream : List ℕ → ℕ → ℕ → List ℕ → List ℕ
stream bytes count fd rest = bytes ++ (long_bytes count ++ (long_bytes fd ++ rest))

stream_filled :
    (fd count : ℕ) (bytes block : List ℕ)
    → length block ≡ 576
    → set_data bytes (set_size count (set_fd fd block)) ≡ stream bytes count fd (drop 520 block)
stream_filled fd count bytes block h =
    let inner = set_fd fd block in
    let size : length inner ≡ 576 =
      length-put_bytes 516 (long_bytes fd) block (omega (arith, h)) ∙ h in
    ap (λ t. bytes ++ t)
      (drop-put_bytes 512 (long_bytes count) inner (omega (arith, size))
        ∙ ap (λ t. long_bytes count ++ t)
            (drop-put_bytes 516 (long_bytes fd) block (omega (arith, h))))

pub length-stream :
    (bytes : List ℕ) (count fd : ℕ) (rest : List ℕ)
    → length bytes ≡ 512
    → length rest ≡ 56
    → length (stream bytes count fd rest) ≡ 576
length-stream bytes count fd rest h k =
    omega (arith, length-append bytes (long_bytes count ++ (long_bytes fd ++ rest)), h, k)

pub stream_size :
    (bytes : List ℕ) (count fd : ℕ) (rest : List ℕ)
    → length bytes ≡ 512
    → count < 2 ^ 32
    → metadata_size (stream bytes count fd rest) ≡ count
stream_size bytes count fd rest h k =
    long_at-behind 512 bytes (long_bytes count ++ (long_bytes fd ++ rest)) 0 h ∙ omega arith

pub stream_fd :
    (bytes : List ℕ) (count fd : ℕ) (rest : List ℕ)
    → length bytes ≡ 512
    → fd < 2 ^ 32
    → metadata_fd (stream bytes count fd rest) ≡ fd
stream_fd bytes count fd rest h k =
    long_at-behind 512 bytes (long_bytes count ++ (long_bytes fd ++ rest)) 4 h ∙ omega arith

write_shows :
    (fd : ℕ) (s : List ℕ) (count : ℕ) (con : Console)
    → (fd == 1 || fd == 2) ≡ true
    → count ≤ length s
    → put fd s count con ≡ ok (record con { screen = con.screen ++ take count s })
unfolding write
write_shows fd s count con screen fits = rw (screen, put_chars_lem s count con fits) refl

screen_fd : (fd : ℕ) → (fd == 1 || fd == 2) ≡ true → fd < 2 ^ 32
screen_fd fd h = ground arith

-- The console's result, taken back through `dispatch` and `syscall`.
abbrev in_user : List ℕ → User → Console → Outcome User
in_user block u con = ok (record u { kernel = record u.kernel { console = con }; sysparam = block })

abbrev to_dispatch : List ℕ → Kernel → Outcome (List ℕ × Kernel)
to_dispatch block k = ok (block, k)

abbrev to_user : User → List ℕ × Kernel → Outcome User
to_user u r = ok (record u { kernel = r.1; sysparam = r.0 })

abbrev to_kernel : Kernel → Console → Outcome Kernel
to_kernel k con = ok (record k { console = con })

on_user :
    (block : List ℕ) (u : User) (r : Outcome Console)
    → (((r >>= to_kernel u.kernel) >>= to_dispatch block) >>= to_user u) ≡ (r >>= in_user block u)
on_user block u (ok con) = refl
on_user block u (stop e) = refl

module _ (o : Os) where
  -- Call 14 in terms of what the block holds.
  stream_call :
      (block bytes : List ℕ) (fd count : ℕ) (u : User)
      → metadata_fd block ≡ fd
      → data_of block ≡ bytes
      → metadata_size block ≡ count
      → syscall o 14 (with_block block u)
        ≡ (put fd bytes count u.kernel.console >>= in_user block u)
  unfolding syscall dispatch print_call
  stream_call block bytes fd count u at_fd at_data at_size =
      on_user block u
        (put (metadata_fd block) (data_of block) (metadata_size block) u.kernel.console)
      ∙ ap (λ r. r >>= in_user block u)
          (ap (λ f. put f (data_of block) (metadata_size block) u.kernel.console) at_fd
            ∙ ap (λ b. put fd b (metadata_size block) u.kernel.console) at_data
            ∙ ap (λ n. put fd bytes n u.kernel.console) at_size)

  -- A program with its block of 576 bytes writes `count` bytes, which `buf` has and the data has room
  -- for, to descriptor 1 or 2: `mywrite` returns 0, exactly those bytes are behind the screen, and but
  -- for the content of the block nothing else changes.
  pub mywrite_lem :
      (fd count : ℕ) (buf : List ℕ) (u : User)
      → (fd == 1 || fd == 2) ≡ true
      → count ≤ 512
      → count ≤ length buf
      → length u.sysparam ≡ 576
      → (block : List ℕ) × (mywrite o fd buf count u
          ≡ ok (0, record u { kernel = shown (take count buf) u.kernel; sysparam = block }))
        × (length block ≡ 576)
  unfolding mywrite
  mywrite_lem fd count buf u screen fits enough size =
      let base = set_size count (set_fd fd u.sysparam) in
      let inner : length (set_fd fd u.sysparam) ≡ 576 =
        length-put_bytes 516 (long_bytes fd) u.sysparam (omega (arith, size)) ∙ size in
      let base_size : length base ≡ 576 =
        length-put_bytes 512 (long_bytes count) (set_fd fd u.sysparam) (omega (arith, inner))
        ∙ inner in
      let data_size : length (data_of base) ≡ 512 =
        length-take 512 base (omega (arith, base_size)) in
      let bytes = take count buf ++ drop count (data_of base) in
      let bytes_size : length bytes ≡ 512 = omega (
        arith,
        length-append (take count buf) (drop count (data_of base)),
        length-take count buf enough,
        length-drop count (data_of base),
        data_size,
        fits,
      ) in
      let rest = drop 520 u.sysparam in
      let block = stream bytes count fd rest in
      let filled = stream_filled fd count bytes u.sysparam size in
      let small = screen_fd fd screen in
      let shows : put fd bytes count u.kernel.console
          ≡ ok (record u.kernel.console { screen = u.kernel.console.screen ++ take count buf }) =
        write_shows fd bytes count u.kernel.console screen (omega (arith, bytes_size, fits))
        ∙ ap (λ t. ok (record u.kernel.console { screen = u.kernel.console.screen ++ t }))
            (take-append_self count (take count buf) (drop count (data_of base))
              (length-take count buf enough)) in
      let calls =
        stream_call block bytes fd count u (stream_fd bytes count fd rest bytes_size small)
          (take-append_self 512 bytes _ bytes_size)
          (stream_size bytes count fd rest bytes_size (omega (arith, fits))) in
      (
        block,
        (rw
            (
              memcpy_lem (data_of base) buf count (omega (arith, data_size, fits)) enough,
              filled,
              calls,
              shows,
            )
            refl),
        length-stream bytes count fd rest bytes_size
            (omega (arith, length-drop 520 u.sysparam, size)),
      )
