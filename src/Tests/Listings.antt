-- ===== src/Tests/Listings.antt =====
-- The theorems on the listing that a program gets at concrete inputs.
use rml.Base.{
  ℕ, List, [], ◌∷◌, ◌++◌, All, take, length-replicate, replicate, codes, ok, ◌≡◌, refl, arith,
}
use rml.Block.{sectors_for}
use rml.Block.Transfer.{image}
use rml.Files.{get_root_offset}
use rml.Fs.Layout.{entry_of_bytes}
use rml.Fs.Entry.{SyscallFileEntry}
use rml.Fs.Directory.Walk.{dir_entries}
use rml.Fs.Directory.Describes.{only_files}
use rml.Params.Listings.{IsSized}
use rml.Syscall.Files.{IsLong}
use rml.User.{User}
use rml.User.Laws.{shown}
use rml.User.Missing.{os_of}
use rml.Base.{refl}
use rml.User.Lines.Directory.{ls-FileLines}
use rml.User.Lines.Listed.{FileLines, sum_of_sizes, IsShown, IsShownFile}
use rml.User.Utils.{ls}
use rml.Console.Lines.{Exactly, Decimal, ◌followed_by◌}
use rml.Fs.Entry.Names.{up_to_space}
use rml.Tests.Root.{
  shell_entry, first_is_shell, second_unused, shell_named, root_disk, root_served, root-IsPlaced,
  root_start,
}
use rml.Tests.Programs.{test_system, slot, shell_user, no_clock}

sizes : All IsLong (dir_entries root_disk 1536 0 2)
unfolding dir_entries image sectors_for entry_of_bytes
sizes = (omega arith, (omega arith, tt))

shell-IsShown : IsShown shell_entry
unfolding up_to_space
shell-IsShown = record {
  named = shell_named;
  size = omega arith;
  plain_name = ground arith;
  plain_ext = ground arith;
}

root-IsShownFile : All IsShownFile (dir_entries root_disk 1536 0 2)
unfolding dir_entries
root-IsShownFile = ((λ e. rw first_is_shell shell-IsShown), ((λ e. cc (e, second_unused)), tt))

ls-FileLines_example :
    let fs = take 18 (only_files (dir_entries root_disk 1536 0 2)) in
    (u' : User) × (text s : List ℕ) × (ls
        (os_of test_system 0 no_clock)
        0
        (replicate 512 7)
        shell_user
      ≡ ok u')
    × (FileLines fs
          followed_by Exactly (codes "total ")
          followed_by Decimal (sum_of_sizes fs 0)
          followed_by Exactly (13 ∷ 10 ∷ []))
        s
    × (u'.kernel ≡ record (shown (text ++ s) shell_user.kernel) {
      fd_list = u'.kernel.fd_list;
      processes = u'.kernel.processes;
    })
unfolding get_root_offset
ls-FileLines_example =
    ls-FileLines (os_of test_system 0 no_clock) root_served 1536 0 0 (replicate 510 0)
      (replicate 512 7) shell_user
      (record { block = length-replicate {A = ℕ} 576 0; digits = refl; long_digits = refl }) refl
      refl (slot, refl, refl) refl root_start.drive refl root-IsPlaced (omega arith)
      root-IsShownFile sizes (omega (arith, length-replicate {A = ℕ} 512 7))

abbrev listing : SyscallFileEntry
listing = record {
  name = codes "SHELL" ++ replicate 4 0;
  ext = codes "BIN" ++ 0 ∷ [];
  dir = 0;
  read_only = 1;
  size = 100000;
  day = 30;
  month = 11;
  year = 2026;
  seconds = 58;
  minutes = 59;
  hours = 23;
}

listing-IsSized : IsSized listing
listing-IsSized = record {
  name = refl;
  ext = refl;
  dir = omega arith;
  read_only = omega arith;
  size = omega arith;
  day = omega arith;
  month = omega arith;
  year = omega arith;
  seconds = omega arith;
  minutes = omega arith;
  hours = omega arith;
}
