-- ===== src/Hardware/Services.antt =====
-- What the code relies on of the BIOS: interrupts 10h, 13h and 16h as they are documented.
use rml.Base.{
  ℕ, ◌+◌, ◌-◌, ◌*◌, ◌%◌, ◌^◌, ◌≤◌, ◌<◌, Bool, true, false, List, [], ◌∷◌, ◌++◌, length, ok, stop,
  blocked, ◌≡◌,
}
use rml.Hardware.{Pc, Interrupts, high, low, memory_at}

-- Interrupt 13h, service 2, reads one sector of drive B, the image of which is `disk`: at a place of
-- the disk, into a buffer that does not cross a multiple of 64K, it reports success and the buffer
-- holds the 512 bytes of the sector.
pub record ReadsSectors (interrupt : Interrupts) (disk : ℕ → List ℕ) : Type 0 where
  pub size : (lba : ℕ) → length (disk lba) ≡ 512
  pub reads :
      (pc : Pc)
      → high pc.ax ≡ 2
      → low pc.ax ≡ 1
      → low pc.dx ≡ 1
      → high pc.cx < 80
      → high pc.dx < 2
      → 1 ≤ low pc.cx
      → low pc.cx ≤ 18
      → (pc.es * 16 + pc.bx) % 2 ^ 16 + 512 ≤ 2 ^ 16
      → (pc' : Pc) × (interrupt 0x13 pc ≡ ok pc')
        × (high pc'.ax ≡ 0)
        × (memory_at pc'.ram (pc.es * 16 + pc.bx) 512
            ≡ disk ((high pc.cx * 2 + high pc.dx) * 18 + (low pc.cx - 1)))

-- Interrupt 10h, service 0Eh, shows the character in AL; AX may change.
pub record Shows (interrupt : Interrupts) : Type 0 where
  pub shows :
      (pc : Pc)
      → high pc.ax ≡ 0xe
      → (ax : ℕ) × (interrupt 0x10 pc
          ≡ ok (record pc { ax = ax; screen = pc.screen ++ low pc.ax ∷ [] }))

abbrev pub is_empty : List ℕ → Bool
is_empty [] = true
is_empty (c ∷ keys) = false

-- Interrupt 16h: service 0 waits for a key and takes it, a byte in AL; service 1 tells by the zero flag
-- whether there is none, and takes nothing.
pub record TakesKeys (interrupt : Interrupts) : Type 0 where
  pub takes :
      (pc : Pc) (c : ℕ) (keys : List ℕ)
      → high pc.ax ≡ 0
      → c < 256
      → pc.keys ≡ c ∷ keys
      → (ax : ℕ) × (interrupt 0x16 pc ≡ ok (record pc { ax = ax; keys = keys })) × (low ax ≡ c)
  pub waits : (pc : Pc) → high pc.ax ≡ 0 → pc.keys ≡ [] → interrupt 0x16 pc ≡ stop blocked
  pub looks :
      (pc : Pc)
      → high pc.ax ≡ 1
      → (ax : ℕ) × (interrupt 0x16 pc ≡ ok (record pc { ax = ax; zero_flag = is_empty pc.keys }))
