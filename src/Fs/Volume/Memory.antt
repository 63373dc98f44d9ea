-- ===== src/Fs/Volume/Memory.antt =====
-- `load_to_memory` of kernel/kernio.c: where in memory the words go.
use rml.Base.{
  ℕ, zero, suc, ◌+◌, ◌-◌, ◌*◌, ◌/◌, ◌%◌, ◌^◌, ◌≤◌, ◌<◌, ◌&&◌, List, [], ◌∷◌, ◌++◌, length, get_or,
  ◌==◌, ltb, leb, if◌then◌else◌, ok, ◌≡◌, refl, subst, sym, ap, ◌∙◌, arith, Bool-cases, inl, inr,
}
use rml.Fs.Volume.{store_words, load_to_memory}

-- The memory with the first `n` of some bytes at the addresses from `base` on.
abbrev pub in_place : ℕ → ℕ → List ℕ → (ℕ → ℕ) → ℕ → ℕ
in_place base n bytes ram p =
    if leb base p && ltb p (base + n) then get_or bytes (p - base) 0 else ram p

get_or_skip :
    (a b : ℕ) (bytes : List ℕ) (i : ℕ) → 2 ≤ i → get_or (a ∷ b ∷ bytes) i 0 ≡ get_or bytes (i - 2) 0
get_or_skip a b bytes zero h = absurd (omega arith)
get_or_skip a b bytes (suc zero) h = absurd (omega arith)
get_or_skip a b bytes (suc (suc i)) h = let back : suc (suc i) - 2 ≡ i = omega arith in rw back

word_near :
    (base n a b : ℕ) (bytes : List ℕ) (ram : ℕ → ℕ) (p : ℕ)
    → p < base + 2
    → in_place
        (base + 2)
        n
        bytes
        (λ q. if q == base then a else if q == base + 1 then b else ram q)
        p
      ≡ in_place base (n + 2) (a ∷ b ∷ bytes) ram p
word_near base n a b bytes ram p h =
    let none_left : (p ≡ base) → p - base ≡ 0 = λ e. omega arith in
    let one_left : (p ≡ base + 1) → p - base ≡ 1 = λ e. omega arith in
    let at_first : (p ≡ base) → get_or (a ∷ b ∷ bytes) (p - base) 0 ≡ a =
      λ e. ap (λ i. get_or (a ∷ b ∷ bytes) i 0) (none_left e) in
    let at_second : (p ≡ base + 1) → get_or (a ∷ b ∷ bytes) (p - base) 0 ≡ b =
      λ e. ap (λ i. get_or (a ∷ b ∷ bytes) i 0) (one_left e) in
    ground (arith, at_first, at_second)

-- One word in front of the others.
word_first :
    (base n a b : ℕ) (bytes : List ℕ) (ram : ℕ → ℕ) (p : ℕ)
    → in_place
        (base + 2)
        n
        bytes
        (λ q. if q == base then a else if q == base + 1 then b else ram q)
        p
      ≡ in_place base (n + 2) (a ∷ b ∷ bytes) ram p
word_first base n a b bytes ram p = elim (Bool-cases (leb (base + 2) p)) [
  | inl far ↦
      let skip = get_or_skip a b bytes (p - base) (ground arith) in
      let same : p - base - 2 ≡ p - (base + 2) = omega arith in
      ground (arith, skip, ap (λ i. get_or bytes i 0) same)
  | inr near ↦ word_near base n a b bytes ram p (ground arith)
]

-- The offset behind a word wraps only where no word follows.
wrapped :
    (n segment di a b : ℕ) (buffer : List ℕ) (ram : ℕ → ℕ) (p : ℕ)
    → di + 2 * suc n ≤ 2 ^ 16
    → in_place
        (segment * 16 + (di + 2) % 2 ^ 16)
        (2 * n)
        buffer
        (λ q.
          if q == segment * 16 + di
          then a
          else if q == segment * 16 + (di + 1) % 2 ^ 16
          then b
          else ram q)
        p
      ≡ in_place
          (segment * 16 + di + 2)
          (2 * n)
          buffer
          (λ q.
            if q == segment * 16 + di then a else if q == segment * 16 + di + 1 then b else ram q)
          p
wrapped n segment di a b buffer ram p h =
    let next : (di + 1) % 2 ^ 16 ≡ di + 1 = omega arith in
    elim (Bool-cases (n == 0)) [
      | inl last ↦ ground (arith, ap (λ v. if p == segment * 16 + v then b else ram p) next)
      | inr more ↦
          let some_word : 0 < n = ground arith in
          let there : segment * 16 + (di + 2) % 2 ^ 16 ≡ segment * 16 + di + 2 = omega arith in
          let behind : segment * 16 + (di + 1) % 2 ^ 16 ≡ segment * 16 + di + 1 = omega arith in
          rw (there, behind)
    ]

-- `n` words that fit the segment behind the offset `di`.
store_words_lem :
    (n segment di : ℕ) (buffer : List ℕ) (ram : ℕ → ℕ)
    → 2 * n ≤ length buffer
    → di + 2 * n ≤ 2 ^ 16
    → (after : ℕ → ℕ) × (store_words n segment di buffer ram ≡ ok after)
      × ((p : ℕ) → after p ≡ in_place (segment * 16 + di) (2 * n) buffer ram p)
unfolding store_words
store_words_lem zero segment di buffer ram h k = (ram, refl, λ p. ground arith)
store_words_lem (suc n) segment di [] ram h k = absurd (omega arith)
store_words_lem (suc n) segment di (a ∷ []) ram h k = absurd (omega arith)
store_words_lem (suc n) segment di (a ∷ b ∷ buffer) ram h k =
    let (after, run, holds) =
      store_words_lem n segment ((di + 2) % 2 ^ 16) buffer _ (omega arith) (omega arith) in
    let words : 2 * n + 2 ≡ 2 * suc n = omega arith in
    (
      after,
      run,
      λ p.
          holds p
          ∙ wrapped n segment di a b buffer ram p k
          ∙ word_first (segment * 16 + di) (2 * n) a b buffer ram p
          ∙ ap (λ k. in_place (segment * 16 + di) k (a ∷ b ∷ buffer) ram p) words,
    )

words_of :
    (segment offset count : ℕ) (buffer : List ℕ) (ram : ℕ → ℕ)
    → segment < 2 ^ 16
    → offset + count ≤ 2 ^ 16
    → 1 < count
    → load_to_memory segment offset buffer count ram
      ≡ store_words (count / 2) segment offset buffer ram
unfolding load_to_memory
words_of segment offset count buffer ram s o z =
    let words : (if count / 2 % 2 ^ 16 == 0 then 2 ^ 16 else count / 2 % 2 ^ 16) ≡ count / 2 =
      ground arith in
    let low_segment : segment % 2 ^ 16 ≡ segment = omega arith in
    let low_offset : offset % 2 ^ 16 ≡ offset = omega arith in rw (words, low_segment, low_offset)

-- Let the count be even, from 2 up and no more than the buffer holds, and let the bytes fit the
-- segment behind the offset. `load_to_memory` stores exactly the first `count` bytes of the buffer
-- from segment:offset on, and leaves the rest of the memory.
pub load_to_memory_lem :
    (segment offset count : ℕ) (buffer : List ℕ) (ram : ℕ → ℕ)
    → segment < 2 ^ 16
    → offset + count ≤ 2 ^ 16
    → 0 < count
    → count % 2 ≡ 0
    → count ≤ length buffer
    → (after : ℕ → ℕ) × (load_to_memory segment offset buffer count ram ≡ ok after)
      × ((p : ℕ) → after p ≡ in_place (segment * 16 + offset) count buffer ram p)
load_to_memory_lem segment offset count buffer ram s o z e h =
    let whole : 2 * (count / 2) ≡ count = omega arith in
    let (after, run, holds) =
      store_words_lem (count / 2) segment offset buffer ram (omega arith) (omega arith) in
    (
      after,
      words_of segment offset count buffer ram s o (omega arith) ∙ run,
      λ p. holds p ∙ ap (λ k. in_place (segment * 16 + offset) k buffer ram p) whole,
    )

get_or-left : (xs ys : List ℕ) (i : ℕ) → i < length xs → get_or (xs ++ ys) i 0 ≡ get_or xs i 0
get_or-left [] ys i h = absurd (omega arith)
get_or-left (x ∷ xs) ys zero h = refl
get_or-left (x ∷ xs) ys (suc i) h = get_or-left xs ys i (omega arith)

get_or-right : (xs ys : List ℕ) (i : ℕ) → get_or (xs ++ ys) (length xs + i) 0 ≡ get_or ys i 0
get_or-right [] ys i = let z : 0 + i ≡ i = omega arith in rw z
get_or-right (x ∷ xs) ys i =
    let z : suc (length xs) + i ≡ suc (length xs + i) = omega arith in rw (z, get_or-right xs ys i)

-- A stretch of memory behind another is one stretch.
in_place-append :
    (base n : ℕ) (xs ys : List ℕ) (ram : ℕ → ℕ) (p : ℕ)
    → in_place (base + length xs) n ys (λ q. in_place base (length xs) xs ram q) p
      ≡ in_place base (length xs + n) (xs ++ ys) ram p
in_place-append base n xs ys ram p = elim (Bool-cases (leb (base + length xs) p)) [
  | inl far ↦
      let right = get_or-right xs ys (p - (base + length xs)) in
      let there : length xs + (p - (base + length xs)) ≡ p - base = ground arith in
      ground (arith, right, ap (λ i. get_or (xs ++ ys) i 0) there)
  | inr near ↦ ground (arith, get_or-left xs ys (p - base))
]

-- At an address, only the memory there counts.
under :
    (base n : ℕ) (xs : List ℕ) (ram ram' : ℕ → ℕ) (p : ℕ)
    → ram p ≡ ram' p
    → in_place base n xs ram p ≡ in_place base n xs ram' p
under base n xs ram ram' p h = ground arith

-- A stretch of 4096 bytes and `n` behind it, put in place one after the other.
pub in_place-join :
    (base behind n total : ℕ) (xs ys : List ℕ) (ram first after : ℕ → ℕ)
    → length xs ≡ 4096
    → behind ≡ base + 4096
    → total ≡ 4096 + n
    → ((p : ℕ) → first p ≡ in_place base 4096 xs ram p)
    → ((p : ℕ) → after p ≡ in_place behind n ys first p)
    → (p : ℕ) → after p ≡ in_place base total (xs ++ ys) ram p
in_place-join base behind n total xs ys ram first after h there sum put_first put_behind p =
    let joined =
      subst
        (λ len.
          in_place (base + len) n ys (λ q. in_place base len xs ram q) p
          ≡ in_place base (len + n) (xs ++ ys) ram p)
        h (in_place-append base n xs ys ram p) in
    put_behind p
    ∙ ap (λ b. in_place b n ys first p) there
    ∙ under (base + 4096) n ys first (λ q. in_place base 4096 xs ram q) p (put_first p)
    ∙ joined
    ∙ ap (λ t. in_place base t (xs ++ ys) ram p) (sym sum)
