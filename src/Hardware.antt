-- ===== src/Hardware.antt =====
-- The machine below the kernel, as the inline assembly of kernel/bios.c, kernel/kernel.c and
-- arch/8088/kernel/io.c uses it: registers, memory, ports and BIOS interrupts.
pub mod Bios
pub mod Vectors
pub mod Direct
pub mod Services
pub mod Disk
pub mod Terminal
use rml.Base.{
  ℕ, zero, suc, ◌+◌, ◌-◌, ◌*◌, ◌/◌, ◌%◌, ◌^◌, u8, ℤ, pos, negsuc, Bool, List, [], ◌∷◌, ◌++◌, ltb,
  ◌==◌, if◌then◌else◌, Outcome,
}

-- The registers that the assembly names, the zero flag, the memory and the bytes that were sent to
-- ports. `screen` is what the BIOS has shown, `keys` what it will read from the keyboard.
pub record Pc : Type 0 where
  pub ax : ℕ
  pub bx : ℕ
  pub cx : ℕ
  pub dx : ℕ
  pub es : ℕ
  pub zero_flag : Bool
  pub ram : ℕ → ℕ
  pub ports : List (ℕ × ℕ)
  pub screen : List ℕ
  pub keys : List ℕ

-- What a software interrupt does: a parameter, since it is the BIOS's code.
abbrev pub Interrupts : Type 0
Interrupts = ℕ → Pc → Outcome Pc

abbrev pub u16 : ℕ → ℕ
u16 n = n % 2 ^ 16

-- The two bytes of a register, such as AH and AL, and setting one of them.
abbrev pub high : ℕ → ℕ
high w = w / 256 % 256

abbrev pub low : ℕ → ℕ
low w = w % 256

abbrev pub set_high : ℕ → ℕ → ℕ
set_high b w = u8 b * 256 + w % 256

abbrev pub set_low : ℕ → ℕ → ℕ
set_low b w = w / 256 * 256 + u8 b

-- A byte read as a `char`.
abbrev pub signed_char : ℕ → ℤ
signed_char b = if ltb b 128 then pos b else negsuc (255 - b)

-- A word of memory, its low byte first, and memory with a word or an int stored.
abbrev pub load_word : (ℕ → ℕ) → ℕ → ℕ
load_word ram p = ram p + 256 * ram (p + 1)

abbrev pub store_word : ℕ → ℕ → (ℕ → ℕ) → ℕ → ℕ
store_word p v ram q = if q == p then v % 256 else if q == p + 1 then v / 256 % 256 else ram q

abbrev pub store_long : ℕ → ℕ → (ℕ → ℕ) → ℕ → ℕ
store_long p v ram = store_word (p + 2) (v / 65536) (store_word p v ram)

-- `n` bytes of memory.
unfoldable pub memory_at : (ℕ → ℕ) → ℕ → ℕ → List ℕ
memory_at ram p zero = []
memory_at ram p (suc n) = ram p ∷ memory_at ram (p + 1) n
