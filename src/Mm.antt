-- ===== src/Mm.antt =====
-- mm/mm.c and include/linux/mm.h: the table of 64K memory segments.
pub mod Laws
pub mod FreeList
use rml.Base.{ℕ, zero, suc, ◌+◌, ◌*◌, List, [], ◌∷◌, ◌==◌, if◌then◌else◌}

-- `MEM_SEG`: `used` is 0 or not.
pub record MemSeg : Type 0 where
  pub used : ℕ
  pub address : ℕ

abbrev pub Segs : Type 0
Segs = List MemSeg

abbrev pub num_seg : ℕ
num_seg = 10

abbrev seg : ℕ → ℕ → MemSeg
seg u a = record { used = u; address = a }

-- `seg_arr` after `init_seg`: the tables of the processor and the kernel are in use.
unfoldable pub init_seg : Segs
init_seg =
    seg 1 0x0000
    ∷ seg 1 0x1000
    ∷ seg 0 0x2000
    ∷ seg 0 0x3000
    ∷ seg 0 0x4000
    ∷ seg 0 0x5000
    ∷ seg 0 0x6000
    ∷ seg 0 0x7000
    ∷ seg 0 0x8000
    ∷ seg 0 0x9000
    ∷ []

-- The first free segment is taken. With none free the function returns its uninitialised variable,
-- `stale`.
unfoldable pub get_free_seg : ℕ → Segs → ℕ × Segs
get_free_seg stale [] = (stale, [])
get_free_seg stale (s ∷ segs) =
    let (found, rest) = get_free_seg stale segs in
    if s.used == 0 then (s.address, record s { used = 1 } ∷ segs) else (found, s ∷ rest)

-- The first segment of that address is released; the result is its index, 10 if there is none.
unfoldable pub release_seg : ℕ → Segs → ℕ × Segs
release_seg address [] = (0, [])
release_seg address (s ∷ segs) =
    let (i, rest) = release_seg address segs in
    if s.address == address then (0, record s { used = 0 } ∷ segs) else (i + 1, s ∷ rest)
