-- ===== src/Tests/Lines.antt =====
-- The theorems on what the kernel prints at concrete inputs.
use rml.Base.{ℕ, List, [], ◌∷◌, ◌++◌, All, codes, literal, replicate, ok, ◌≡◌, refl, arith}
use rml.Clib.Text.Scan.{has_nul}
use rml.Clock.{read_rtc_date, read_rtc_time, time}
use rml.Clock.Line.{TimeLine, time_lem}
use rml.Console.{Console, get_process_list}
use rml.Console.Numbers.{IsReady}
use rml.Console.Lines.{Exactly, IsPrintable, ProcessLines, ◌followed_by◌, get_process_list_lem}
use rml.Sched.{Processes, running}
use rml.Tests.Programs.{slot}

abbrev con : Console
con = record { screen = codes "#"; digits = replicate 7 0 }

con-IsReady : IsReady con
con-IsReady = record { size = refl; last = refl }

-- The shell in the second slot.
abbrev processes : Processes
processes = record {
  table =
      slot
      ∷ (record slot {
        pid = 2;
        name = literal "SHELL";
        cs = 0x3000;
        ppid = 1;
        size = 4096;
        state = running;
      })
      ∷ [];
  current = 2;
}

processes-IsPrintable : All IsPrintable processes.table
unfolding has_nul
processes-IsPrintable = (
  record {
    pid = omega arith;
    ppid = omega arith;
    segment = omega arith;
    size = omega arith;
    name = refl;
  },
  (
    record {
      pid = omega arith;
      ppid = omega arith;
      segment = omega arith;
      size = omega arith;
      name = refl;
    },
    tt,
  ),
)

get_process_list_lem_example :
    (con' : Console) × (s : List ℕ) × (get_process_list processes con ≡ ok con')
    × (Exactly (codes "USER PID PPID CS STAT SIZE NAME" ++ 13 ∷ 10 ∷ [])
          followed_by ProcessLines processes.table)
        s
    × (con'.screen ≡ codes "#" ++ s)
    × IsReady con'
get_process_list_lem_example = get_process_list_lem processes con processes-IsPrintable con-IsReady

time_lem_example :
    (con' : Console) × (s : List ℕ) × (time
        (read_rtc_date 0x20 0x26 0x11 0x30)
        (read_rtc_time 0x23 0x59 0x07)
        con
      ≡ ok con')
    × TimeLine
        (record { year = 2026; month = 11; day = 30 })
        (record { hours = 23; minutes = 59; seconds = 7 })
        s
    × (con'.screen ≡ codes "#" ++ s)
    × IsReady con'
time_lem_example =
    time_lem 2026 11 30 23 59 7 con (omega arith) (omega arith) (omega arith) (omega arith)
      (omega arith) (omega arith) con-IsReady
