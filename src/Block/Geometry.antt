-- ===== src/Block/Geometry.antt =====
-- Which sector a place on the drive is, and which places `lba_to_chs` and the read loop go to.
use rml.Base.{ℕ, ◌+◌, ◌-◌, ◌*◌, ◌/◌, ◌%◌, ◌≤◌, ◌<◌, u8, ◌==◌, if◌then◌else◌, ok, ◌≡◌, ◌≢◌, arith}
use rml.Block.{Chs, lba_to_chs, turn}

-- The number of the sector at a place, counted along the tracks of 18 sectors and the 2 heads.
abbrev pub lba_of : Chs → ℕ
lba_of at = (at.cylinder * 2 + at.head) * 18 + (at.sector - 1)

-- A place of a 1.44M floppy: 80 cylinders, 2 heads, sectors 1 to 18.
pub record OnDisk (at : Chs) : Type 0 where
  pub cylinder_in : at.cylinder < 80
  pub head_in : at.head < 2
  pub sector_from : 1 ≤ at.sector
  pub sector_to : at.sector ≤ 18

-- The read loop stands at sector `lba`, once it has moved to the next track if it is past the end
-- of one.
abbrev pub StandsAt : Chs → ℕ → Type 0
StandsAt at lba = OnDisk (turn at) × (lba_of (turn at) ≡ lba)

-- For a sector of the disk that is not the last of its track, `lba_to_chs` gives the place of that
-- sector, on the disk.
pub lba_to_chs_lem :
    (lba : ℕ)
    → lba < 2880
    → lba % 18 ≢ 17
    → (at : Chs) × (lba_to_chs lba 80 2 18 ≡ ok at) × (lba_of at ≡ lba) × OnDisk at
unfolding lba_to_chs
lba_to_chs_lem lba h n = (
  record { cylinder = lba / 36; head = lba / 18 % 2; sector = lba % 18 + 1 },
  ground arith,
  omega arith,
  omega arith,
)

-- The sector of the same cylinder that lies under the other head.
abbrev pub other_head : ℕ → ℕ
other_head lba = if lba / 18 % 2 == 0 then lba + 18 else lba - 18

-- For the last sector of a track `lba_to_chs` gives the place, on the disk, of the sector
-- under the other head: 18 sectors too far on the first head, and 18 too near on the second.
pub lba_to_chs_last :
    (lba : ℕ)
    → lba < 2880
    → lba % 18 ≡ 17
    → (at : Chs) × (lba_to_chs lba 80 2 18 ≡ ok at) × (lba_of at ≡ other_head lba) × OnDisk at
unfolding lba_to_chs
lba_to_chs_last lba h n = (
  record { cylinder = lba / 36; head = (lba / 18 + 1) % 2; sector = 18 },
  ground arith,
  ground arith,
  omega arith,
)

step_on :
    (here : Chs) (lba : ℕ)
    → OnDisk here
    → lba_of here ≡ lba
    → lba + 1 < 2880
    → StandsAt (record here { sector = u8 (here.sector + 1) }) (lba + 1)
unfolding turn
step_on here lba o e k = ground arith

-- Going on by one sector in the read loop, over the end of a track or a cylinder, is going on by
-- one sector of the disk.
pub turn-next :
    (at : Chs) (lba : ℕ)
    → StandsAt at lba
    → lba + 1 < 2880
    → StandsAt (record (turn at) { sector = u8 ((turn at).sector + 1) }) (lba + 1)
turn-next at lba h k = step_on (turn at) lba h.0 h.1 k

-- A place on the disk is where the loop stands.
pub OnDisk-StandsAt : (at : Chs) (lba : ℕ) → OnDisk at → lba_of at ≡ lba → StandsAt at lba
unfolding turn
OnDisk-StandsAt at lba o e = ground arith
