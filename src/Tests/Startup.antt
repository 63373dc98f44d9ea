-- ===== src/Tests/Startup.antt =====
-- The theorems on starting the kernel and on what a program prints.
use rml.Base.{
  ℕ, ◌+◌, ◌*◌, ◌^◌, ◌<◌, ◌≤◌, negsuc, List, [], ◌∷◌, ◌++◌, All, length, length-replicate, replicate,
  codes, literal, ok, stop, no_fuel, ◌≡◌, refl, arith,
}
use rml.Clib.Text.Scan.{has_nul}
use rml.Mm.{init_seg}
use rml.Kernel.{Kernel}
use rml.Fs.Layout.{boot_sector_of}
use rml.Fs.Mount.{IsMounted}
use rml.Syscall.{System, exit}
use rml.Start.{start, start_lem}
use rml.User.{User, Os, mywrite}
use rml.User.Laws.{shown, mywrite_lem}
use rml.User.Stdio.{string, int, printf}
use rml.User.Printf.{IsRunning}
use rml.User.Template.{
  Item, plain, a_string, a_number, template_of, args_of, StandFor, IsItem, printf_lem,
}
use rml.Tests.Boot.{boot_bytes, machine, served, found, started, placed, reads_table, table_fits}

abbrev test_system : System
test_system = record {
  machine = machine;
  farcall = λ segment ram. exit;
  stale_segment = 0;
  stale_pid = 0;
  stale_files = [];
  stale_cluster = [];
  fuel = 8;
}

start_lem_example :
    (k' : Kernel) × (start test_system (replicate 1024 0) started ≡ ok k')
    × (k'.console.screen ≡ codes "starting kernel..." ++ 13 ∷ 10 ∷ [])
    × (k'.segs ≡ init_seg)
    × (k'.ram 0x200 + 2 ^ 8 * k'.ram 0x201 ≡ 0)
    × (k'.ram 0x202 + 2 ^ 8 * k'.ram 0x203 ≡ 0x1000)
    × ((p : ℕ) → p < 0x200 → k'.ram p ≡ 0)
    × ((p : ℕ) → 0x204 ≤ p → k'.ram p ≡ 0)
    × IsMounted (boot_sector_of boot_bytes) found k'
start_lem_example =
    start_lem test_system served (replicate 1024 0) found started refl placed reads_table table_fits

abbrev os : Os
os = record {
  system = test_system;
  run_program = λ name k. stop no_fuel;
  clock = record { hours = 0; minutes = 0; seconds = 0; century = 0; year = 0; month = 0; day = 0 };
}

abbrev user : User
user = record {
  kernel = started;
  sysparam = replicate 576 0;
  itoa_buf = replicate 7 0;
  ultoa_buf = replicate 12 0;
}

mywrite_lem_example :
    (block : List ℕ) × (mywrite os 1 (codes "hello") 4 user
      ≡ ok (0, record user { kernel = shown (codes "hell") started; sysparam = block }))
    × (length block ≡ 576)
mywrite_lem_example =
    mywrite_lem os 1 4 (codes "hello") user refl (omega arith) (omega arith)
      (length-replicate {A = ℕ} 576 0)

-- "x=%d %s" with -42 and "ok"
abbrev items : List Item
items = plain b'x' ∷ plain b'=' ∷ a_number (negsuc 41) ∷ plain b' ' ∷ a_string (literal "ok") ∷ []

items_fit : All IsItem items
unfolding has_nul
items_fit = (
  ((λ e. omega (arith, e)), (λ e. omega (arith, e))),
  (
    ((λ e. omega (arith, e)), (λ e. omega (arith, e))),
    (omega arith, (((λ e. omega (arith, e)), (λ e. omega (arith, e))), (refl, tt))),
  ),
)

printf_lem_example :
    (n : ℕ) × (u' : User) × (out : List ℕ) × (printf os
        (literal "x=%d %s")
        (int (negsuc 41) ∷ string (literal "ok") ∷ [])
        user
      ≡ ok (n, u'))
    × StandFor items out
    × (u'.kernel ≡ shown out started)
    × IsRunning u'
unfolding template_of args_of
printf_lem_example =
    printf_lem os items [] user
      (record { block = length-replicate {A = ℕ} 576 0; digits = refl; long_digits = refl })
      items_fit
