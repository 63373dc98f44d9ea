-- ===== src/Params/Listings.antt =====
-- The listings of a directory in the block (include/sysdef.h): what the kernel stores is what a
-- program reads.
use mathlib.Core.List.{append_assoc}
use rml.Base.{
  ℕ, zero, suc, ◌+◌, ◌*◌, ◌/◌, ◌%◌, ◌^◌, ◌≤◌, ◌<◌, List, [], ◌∷◌, ◌++◌, take, drop, length,
  length-append, length-take, length-drop, drop-append, take-append_self, take-append-drop,
  get_or-behind, All, ◌≡◌, refl, sym, ap, ap₂, ◌∙◌, arith,
}
use rml.Fs.Layout.{byte_at, short_at, long_at, bytes_from}
use rml.Fs.Entry.{SyscallFileEntry}
use rml.Params.{long_bytes, short_bytes, listing_at, listing_bytes, listings_in, put_listings}

-- A listing that fits its 28 bytes.
pub record IsSized (l : SyscallFileEntry) : Type 0 where
  pub name : length l.name ≡ 9
  pub ext : length l.ext ≡ 4
  pub dir : l.dir < 256
  pub read_only : l.read_only < 256
  pub size : l.size < 2 ^ 32
  pub day : l.day < 256
  pub month : l.month < 256
  pub year : l.year < 2 ^ 16
  pub seconds : l.seconds < 256
  pub minutes : l.minutes < 256
  pub hours : l.hours < 256

one_byte : (l : List ℕ) → length l ≡ 1 → (x : ℕ) × (l ≡ x ∷ [])
one_byte [] h = absurd (omega arith)
one_byte (x ∷ []) h = (x, refl)
one_byte (x ∷ y ∷ l) h = absurd (omega arith)

-- The bytes behind the two names.
abbrev fields : ℕ → ℕ → SyscallFileEntry → List ℕ
fields x y l =
    (l.dir % 256)
    ∷ (l.read_only % 256)
    ∷ x
    ∷ (l.size % 256)
    ∷ (l.size / 256 % 256)
    ∷ (l.size / 65536 % 256)
    ∷ (l.size / 16777216 % 256)
    ∷ (l.day % 256)
    ∷ (l.month % 256)
    ∷ (l.year % 256)
    ∷ (l.year / 256 % 256)
    ∷ (l.seconds % 256)
    ∷ (l.minutes % 256)
    ∷ (l.hours % 256)
    ∷ y
    ∷ []

joined : (n e a l d h : List ℕ) → n ++ e ++ a ++ l ++ d ++ h ≡ n ++ (e ++ (a ++ (l ++ (d ++ h))))
joined n e a l d h =
    append_assoc (n ++ e ++ a ++ l) d h
    ∙ append_assoc (n ++ e ++ a) l (d ++ h)
    ∙ append_assoc (n ++ e) a (l ++ (d ++ h))
    ∙ append_assoc n e (a ++ (l ++ (d ++ h)))

layout_with :
    (old : List ℕ) (l : SyscallFileEntry) (x y : ℕ)
    → bytes_from old 15 1 ≡ x ∷ []
    → bytes_from old 27 1 ≡ y ∷ []
    → listing_bytes old l ≡ l.name ++ (l.ext ++ fields x y l)
layout_with old l x y h k =
    joined l.name l.ext ((l.dir % 256) ∷ (l.read_only % 256) ∷ bytes_from old 15 1)
      (long_bytes l.size) ((l.day % 256) ∷ (l.month % 256) ∷ short_bytes l.year)
      ((l.seconds % 256) ∷ (l.minutes % 256) ∷ (l.hours % 256) ∷ bytes_from old 27 1)
    ∙ ap₂
        (λ (b c : List ℕ).
          l.name
          ++ (l.ext
              ++ ((l.dir % 256) ∷ (l.read_only % 256) ∷ b
                  ++ (long_bytes l.size
                      ++ ((l.day % 256) ∷ (l.month % 256) ∷ short_bytes l.year
                          ++ (l.seconds % 256) ∷ (l.minutes % 256) ∷ (l.hours % 256) ∷ c)))))
        h k

listing_layout :
    (old : List ℕ) (l : SyscallFileEntry)
    → length old ≡ 28
    → (x : ℕ) × (y : ℕ) × (listing_bytes old l ≡ l.name ++ (l.ext ++ fields x y l))
listing_layout old l h =
    let (x, x_eq) =
      one_byte (bytes_from old 15 1)
        (length-take 1 (drop 15 old) (omega (arith, length-drop 15 old, h))) in
    let (y, y_eq) =
      one_byte (bytes_from old 27 1)
        (length-take 1 (drop 27 old) (omega (arith, length-drop 27 old, h))) in
    (x, y, layout_with old l x y x_eq y_eq)

at_field :
    (l : SyscallFileEntry) (x y j : ℕ)
    → IsSized l
    → byte_at (l.name ++ (l.ext ++ fields x y l)) (13 + j) ≡ byte_at (fields x y l) j
at_field l x y j h =
    let next : 13 + j ≡ 9 + (4 + j) = omega arith in
    ap (λ i. byte_at (l.name ++ (l.ext ++ fields x y l)) i) next
    ∙ get_or-behind l.name (l.ext ++ fields x y l) 9 (4 + j) 0 h.name
    ∙ get_or-behind l.ext (fields x y l) 4 j 0 h.ext

-- The bytes of a listing, read back.
read_back :
    (l : SyscallFileEntry) (x y : ℕ)
    → IsSized l
    → listing_at (l.name ++ (l.ext ++ fields x y l)) ≡ l
read_back l x y h =
    let b = l.name ++ (l.ext ++ fields x y l) in
    let behind : drop 9 b ≡ l.ext ++ fields x y l =
      drop-append 9 l.name (l.ext ++ fields x y l) h.name in
    let name : take 9 b ≡ l.name = take-append_self 9 l.name (l.ext ++ fields x y l) h.name in
    let ext : bytes_from b 9 4 ≡ l.ext =
      ap (λ t. take 4 t) behind ∙ take-append_self 4 l.ext (fields x y l) h.ext in
    let at = λ (j : ℕ). at_field l x y j h in
    let dir : byte_at b 13 ≡ l.dir = omega (arith, at 0, h.dir) in
    let read_only : byte_at b 14 ≡ l.read_only = omega (arith, at 1, h.read_only) in
    let size : long_at b 16 ≡ l.size = omega (arith, at 3, at 4, at 5, at 6, h.size) in
    let day : byte_at b 20 ≡ l.day = omega (arith, at 7, h.day) in
    let month : byte_at b 21 ≡ l.month = omega (arith, at 8, h.month) in
    let year : short_at b 22 ≡ l.year = omega (arith, at 9, at 10, h.year) in
    let seconds : byte_at b 24 ≡ l.seconds = omega (arith, at 11, h.seconds) in
    let minutes : byte_at b 25 ≡ l.minutes = omega (arith, at 12, h.minutes) in
    let hours : byte_at b 26 ≡ l.hours = omega (arith, at 13, h.hours) in
    λ i. record {
      name = name i;
      ext = ext i;
      dir = dir i;
      read_only = read_only i;
      size = size i;
      day = day i;
      month = month i;
      year = year i;
      seconds = seconds i;
      minutes = minutes i;
      hours = hours i;
    }

-- The arrays for the names have their sizes.
abbrev pub HasNames : SyscallFileEntry → Type 0
HasNames l = (length l.name ≡ 9) × (length l.ext ≡ 4)

length-layout :
    (l : SyscallFileEntry) (x y : ℕ) → HasNames l → length (l.name ++ (l.ext ++ fields x y l)) ≡ 28
length-layout l x y h = omega (
  arith,
  length-append l.name (l.ext ++ fields x y l),
  length-append l.ext (fields x y l),
  h.0,
  h.1,
)

-- Listings that fit their places, stored at the beginning of the data, are read back as they were,
-- whatever is stored behind them.
pub listings_in-put_listings :
    (ls more : List SyscallFileEntry) (b : List ℕ)
    → All IsSized ls
    → 28 * length ls ≤ length b
    → listings_in (length ls) (put_listings (ls ++ more) b) ≡ ls
unfolding listings_in put_listings
listings_in-put_listings [] more b h fits = refl
listings_in-put_listings (l ∷ ls) more b h fits =
    let (x, y, layout) = listing_layout (take 28 b) l (length-take 28 b (omega (arith, fits))) in
    let bytes = l.name ++ (l.ext ++ fields x y l) in
    let rest = put_listings (ls ++ more) (drop 28 b) in
    let size = length-layout l x y (h.0.name, h.0.ext) in
    ap (λ t. listing_at (take 28 (t ++ rest)) ∷ listings_in (length ls) (drop 28 (t ++ rest)))
      layout
    ∙ ap₂ (λ (t r : List ℕ). listing_at t ∷ listings_in (length ls) r)
        (take-append_self 28 bytes rest size) (drop-append 28 bytes rest size)
    ∙ ap₂ (λ (e : SyscallFileEntry) (r : List SyscallFileEntry). e ∷ r) (read_back l x y h.0)
        (listings_in-put_listings ls more (drop 28 b) h.1 (omega (arith, length-drop 28 b, fits)))

pub length-put_listings :
    (ls : List SyscallFileEntry) (b : List ℕ)
    → All HasNames ls
    → 28 * length ls ≤ length b
    → length (put_listings ls b) ≡ length b
unfolding put_listings
length-put_listings [] b h fits = refl
length-put_listings (l ∷ ls) b h fits =
    let (x, y, layout) = listing_layout (take 28 b) l (length-take 28 b (omega (arith, fits))) in
    omega (
      arith,
      length-append (listing_bytes (take 28 b) l) (put_listings ls (drop 28 b)),
      ap (λ t. length t) layout,
      length-layout l x y h.0,
      length-put_listings ls (drop 28 b) h.1 (omega (arith, length-drop 28 b, fits)),
      length-drop 28 b,
    )

-- Only the first `28 * n` bytes count for `n` listings.
pub listings_in-append :
    (n : ℕ) (p q r : List ℕ) → 28 * n ≤ length p → listings_in n (p ++ q) ≡ listings_in n (p ++ r)
unfolding listings_in
listings_in-append zero p q r h = refl
listings_in-append (suc n) p q r h =
    let first = take 28 p in
    let later = drop 28 p in
    let size : length first ≡ 28 = length-take 28 p (omega arith) in
    let split =
      λ (t : List ℕ). ap (λ u. u ++ t) (sym (take-append-drop 28 p)) ∙ append_assoc first later t in
    ap (λ u. listing_at (take 28 u) ∷ listings_in n (drop 28 u)) (split q)
    ∙ ap₂ (λ (t u : List ℕ). listing_at t ∷ listings_in n u)
        (take-append_self 28 first (later ++ q) size) (drop-append 28 first (later ++ q) size)
    ∙ ap (λ u. listing_at first ∷ u)
        (listings_in-append n later q r (omega (arith, length-drop 28 p, h)))
    ∙ sym (
        ap (λ u. listing_at (take 28 u) ∷ listings_in n (drop 28 u)) (split r)
        ∙ ap₂ (λ (t u : List ℕ). listing_at t ∷ listings_in n u)
            (take-append_self 28 first (later ++ r) size) (drop-append 28 first (later ++ r) size))

pub length-listings_in : (n : ℕ) (b : List ℕ) → length (listings_in n b) ≡ n
unfolding listings_in
length-listings_in zero b = refl
length-listings_in (suc n) b = ap suc (length-listings_in n (drop 28 b))

pub listings_in-HasNames : (n : ℕ) (b : List ℕ) → 28 * n ≤ length b → All HasNames (listings_in n b)
unfolding listings_in
listings_in-HasNames zero b h = tt
listings_in-HasNames (suc n) b h =
    let size : length (take 28 b) ≡ 28 = length-take 28 b (omega arith) in
    (
      (
        length-take 9 (take 28 b) (omega (arith, size)),
        length-take 4 (drop 9 (take 28 b)) (omega (arith, length-drop 9 (take 28 b), size)),
      ),
      listings_in-HasNames n (drop 28 b) (omega (arith, length-drop 28 b, h)),
    )
