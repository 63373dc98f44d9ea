-- ===== src/Params/Laws.antt =====
-- Storing into the block of a system call and reading it back.
use rml.Base.{
  ℕ, ◌+◌, ◌*◌, ◌≤◌, List, ◌++◌, take, drop, length, length-append, length-take, length-drop,
  drop-append, get_or, get_or-behind, ◌≡◌, refl, arith,
}
use rml.Fs.Layout.{long_at}
use rml.Params.{put_bytes}

-- An int read back from behind `n` bytes and `j` more.
pub long_at-behind :
    (n : ℕ) (p s : List ℕ) (j : ℕ)
    → length p ≡ n
    → long_at (p ++ s) (n + j)
      ≡ get_or s j 0
        + 256 * get_or s (j + 1) 0
        + 65536 * (get_or s (j + 2) 0 + 256 * get_or s (j + 3) 0)
long_at-behind n p s j h =
    let one : n + j + 1 ≡ n + (j + 1) = omega arith in
    let two : n + j + 2 ≡ n + (j + 2) = omega arith in
    let three : n + j + 2 + 1 ≡ n + (j + 3) = omega arith in
    let at = λ (i : ℕ). get_or-behind p s n i 0 h in
    rw (three, two, one, at j, at (j + 1), at (j + 2), at (j + 3)) refl

pub drop-put_bytes :
    (n : ℕ) (bytes block : List ℕ)
    → n ≤ length block
    → drop n (put_bytes n bytes block) ≡ bytes ++ drop (n + length bytes) block
drop-put_bytes n bytes block h = drop-append n (take n block) _ (length-take n block h)

pub length-put_bytes :
    (n : ℕ) (bytes block : List ℕ)
    → n + length bytes ≤ length block
    → length (put_bytes n bytes block) ≡ length block
length-put_bytes n bytes block h = omega (
  arith,
  length-append (take n block) (bytes ++ drop (n + length bytes) block),
  length-append bytes (drop (n + length bytes) block),
  length-take n block,
  length-drop (n + length bytes) block,
)
