-- ===== src/Params.antt =====
-- The block of a system call (include/sysdef.h): 512 bytes of data and 64 of metadata, which the
-- kernel and the program read as several structs. An int has four bytes, the lowest first.
pub mod Laws
pub mod Listings
use rml.Base.{
  ℕ, zero, suc, ◌+◌, ◌-◌, ◌/◌, ◌%◌, ◌^◌, ℤ, pos, negsuc, List, [], ◌∷◌, ◌++◌, take, drop, length,
}
use rml.Fs.Layout.{byte_at, short_at, long_at, bytes_from}
use rml.Fs.Entry.{SyscallFileEntry}

-- `SYSCALL_DATA_SIZE`, `SYSCALL_BUF_SIZE`
abbrev pub syscall_data_size : ℕ
syscall_data_size = 512

abbrev pub syscall_buf_size : ℕ
syscall_buf_size = 576

abbrev pub long_bytes : ℕ → List ℕ
long_bytes v = v % 256 ∷ v / 256 % 256 ∷ v / 65536 % 256 ∷ v / 16777216 % 256 ∷ []

abbrev pub short_bytes : ℕ → List ℕ
short_bytes v = v % 256 ∷ v / 256 % 256 ∷ []

-- The two's complement of an int.
abbrev pub int_word : ℤ → ℕ
int_word (pos n) = n % 2 ^ 32
int_word (negsuc n) = 2 ^ 32 - 1 - n % 2 ^ 32

-- Bytes stored at an offset of the block.
abbrev pub put_bytes : ℕ → List ℕ → List ℕ → List ℕ
put_bytes offset bytes block = take offset block ++ (bytes ++ drop (offset + length bytes) block)

-- The fields of `SYSCALL_STREAM_METADATA`.
abbrev pub metadata_size : List ℕ → ℕ
metadata_size block = long_at block 512

abbrev pub metadata_fd : List ℕ → ℕ
metadata_fd block = long_at block 516

abbrev pub metadata_offset : List ℕ → ℕ
metadata_offset block = long_at block 520

abbrev pub set_size : ℕ → List ℕ → List ℕ
set_size v block = put_bytes 512 (long_bytes v) block

abbrev pub set_fd : ℕ → List ℕ → List ℕ
set_fd v block = put_bytes 516 (long_bytes v) block

abbrev pub set_offset : ℕ → List ℕ → List ℕ
set_offset v block = put_bytes 520 (long_bytes v) block

-- `SYSCALL_STD.data`
abbrev pub data_of : List ℕ → List ℕ
data_of block = take 512 block

abbrev pub set_data : List ℕ → List ℕ → List ℕ
set_data bytes block = bytes ++ drop 512 block

-- `SYSCALL_FILE_ENTRY`, 28 bytes with one of padding behind `read_only` and one at the end.
abbrev pub listing_at : List ℕ → SyscallFileEntry
listing_at b = record {
  name = take 9 b;
  ext = bytes_from b 9 4;
  dir = byte_at b 13;
  read_only = byte_at b 14;
  size = long_at b 16;
  day = byte_at b 20;
  month = byte_at b 21;
  year = short_at b 22;
  seconds = byte_at b 24;
  minutes = byte_at b 25;
  hours = byte_at b 26;
}

abbrev pub listing_bytes : List ℕ → SyscallFileEntry → List ℕ
listing_bytes old l =
    l.name
    ++ l.ext
    ++ l.dir % 256 ∷ l.read_only % 256 ∷ bytes_from old 15 1
    ++ long_bytes l.size
    ++ l.day % 256 ∷ l.month % 256 ∷ short_bytes l.year
    ++ l.seconds % 256 ∷ l.minutes % 256 ∷ l.hours % 256 ∷ bytes_from old 27 1

-- `n` entries of the data, and the bytes when they are stored back.
unfoldable pub listings_in : ℕ → List ℕ → List SyscallFileEntry
listings_in zero b = []
listings_in (suc n) b = listing_at (take 28 b) ∷ listings_in n (drop 28 b)

unfoldable pub put_listings : List SyscallFileEntry → List ℕ → List ℕ
put_listings [] b = b
put_listings (l ∷ ls) b = listing_bytes (take 28 b) l ++ put_listings ls (drop 28 b)
