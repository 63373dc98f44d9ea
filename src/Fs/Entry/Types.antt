-- ===== src/Fs/Entry/Types.antt =====
-- Which directory entries `get_entry_type` of fs/msdos/fs.c takes for files.
use rml.Base.{ℕ, ◌*◌, ◌/◌, ◌%◌, bit_and, not, ◌&&◌, ◌==◌, ◌≡◌, ap, ◌∙◌, arith}
use rml.Base.Masks.{bit_and-shifted, bit_and-1}
use rml.Fs.Layout.{Fat16Entry}
use rml.Fs.Entry.{file_attrib, get_entry_type, is_file, first_byte}

volume_bit : (a : ℕ) → bit_and a 0x08 ≡ a / 8 % 2 * 8
volume_bit a = bit_and-shifted 3 1 a ∙ ap (λ (t : ℕ). t * 8) (bit_and-1 (a / 8))

-- An entry is a file exactly when its name begins neither with the mark of a deleted entry nor with
-- 0 and its volume-label bit is clear; the long-name entries, whose attributes are 0x0f, are none
-- whatever their other bytes.
pub get_entry_type-file :
    (e : Fat16Entry)
    → is_file (get_entry_type e)
      ≡ (not (first_byte e == 0xe5) && not (first_byte e == 0) && e.attributes / 8 % 2 == 0)
unfolding get_entry_type
get_entry_type-file e = ground (arith, volume_bit e.attributes)

-- The bits of the attributes: each field of `file_attrib` is zero exactly when its bit is.
pub file_attrib_lem :
    (e : Fat16Entry)
    → let a = file_attrib e in
      (a.read_only ≡ e.attributes % 2)
      × (a.hidden ≡ e.attributes / 2 % 2 * 2)
      × (a.system_file ≡ e.attributes / 4 % 2 * 4)
      × (a.volume_label ≡ e.attributes / 8 % 2 * 8)
      × (a.subdirectory ≡ e.attributes / 16 % 2 * 16)
      × (a.archive ≡ e.attributes / 32 % 2 * 32)
unfolding file_attrib
file_attrib_lem e = (
  bit_and-1 e.attributes,
  bit_and-shifted 1 1 e.attributes ∙ ap (λ (t : ℕ). t * 2) (bit_and-1 (e.attributes / 2)),
  bit_and-shifted 2 1 e.attributes ∙ ap (λ (t : ℕ). t * 4) (bit_and-1 (e.attributes / 4)),
  volume_bit e.attributes,
  bit_and-shifted 4 1 e.attributes ∙ ap (λ (t : ℕ). t * 16) (bit_and-1 (e.attributes / 16)),
  bit_and-shifted 5 1 e.attributes ∙ ap (λ (t : ℕ). t * 32) (bit_and-1 (e.attributes / 32)),
)
