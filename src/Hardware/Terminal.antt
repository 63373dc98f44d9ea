-- ===== src/Hardware/Terminal.antt =====
-- The BIOS's screen and keyboard against those of Console and Kernel.
use rml.Base.{
  ℕ, zero, suc, ◌<◌, true, false, List, [], ◌∷◌, ◌++◌, All, Outcome, ok, stop, no_fuel, ◌>>=◌, ◌≡◌,
  refl, ap, ◌∙◌, arith,
}
use rml.Console.{Console, put_chars}
use rml.Kernel.{read_keys}
use rml.Hardware.{Pc, Interrupts, low, set_high, set_low}
use rml.Hardware.Bios.{wait_for_key, b_getchar, b_getchar_sync, b_putchar, type_chars, type_keys}
use rml.Hardware.Services.{Shows, TakesKeys, is_empty}

-- The machine goes on as the console does, or both stop for one reason; only the screen changes.
abbrev pub Shown : Pc → Outcome Console → Outcome Pc → Type 0
Shown pc (ok con) r = r ≡ ok (record pc { screen = con.screen })
Shown pc (stop e) r = r ≡ stop e

-- The machine and the kernel have the same keys left, or both stop for one reason.
abbrev pub Taken : Outcome (List ℕ × List ℕ) → Outcome (List ℕ × Pc) → Type 0
Taken (ok (keys, buf)) r = (pc : Pc) × (r ≡ ok (buf, pc)) × (pc.keys ≡ keys)
Taken (stop e) r = r ≡ stop e

Taken-more :
    (c : ℕ) (e : Outcome (List ℕ × List ℕ)) (r : Outcome (List ℕ × Pc))
    → Taken e r
    → Taken (e >>= λ (keys, rest). ok (keys, c ∷ rest)) (r >>= λ (rest, pc). ok (c ∷ rest, pc))
Taken-more c (ok (keys, rest)) r (pc, run, same) = (pc, (rw run refl), same)
Taken-more c (stop e) r same = rw same refl

module _ (interrupt : Interrupts) (screen : Shows interrupt) where
  b_putchar_lem :
      (c : ℕ) (pc : Pc)
      → c < 256
      → b_putchar interrupt c pc ≡ ok (record pc { screen = pc.screen ++ c ∷ [] })
  unfolding b_putchar
  b_putchar_lem c pc h =
      let called = record pc { ax = set_low c (set_high 0xe pc.ax) } in
      let (ax, run) = screen.shows called (omega arith) in
      let same : low called.ax ≡ c = omega arith in rw (run, same) refl

  -- Interrupt 10h shows what it is given, and the buffer holds bytes. The loop of `write` over
  -- `b_putchar` leaves the screen that `put_chars` of Console makes, and stops at the end of the
  -- buffer where it does; all registers and the memory are as before.
  pub type_chars-put_chars :
      (buf : List ℕ) (count : ℕ) (con : Console) (pc : Pc)
      → All (λ c. c < 256) buf
      → pc.screen ≡ con.screen
      → Shown pc (put_chars buf count con) (type_chars interrupt buf count pc)
  unfolding put_chars type_chars
  type_chars-put_chars buf zero con pc h same = ap (λ s. ok (record pc { screen = s })) same
  type_chars-put_chars [] (suc count) con pc h same = refl
  type_chars-put_chars (c ∷ buf) (suc count) con pc h same = rw (b_putchar_lem c pc h.0) (
      type_chars-put_chars buf count (record con { screen = con.screen ++ c ∷ [] })
        (record pc { screen = pc.screen ++ c ∷ [] }) h.1 (ap (λ s. s ++ c ∷ []) same))

module _ (interrupt : Interrupts) (keyboard : TakesKeys interrupt) where
  keys-Taken :
      (count : ℕ) (keys buf : List ℕ) (pc : Pc)
      → All (λ c. c < 256) keys
      → pc.keys ≡ keys
      → Taken (read_keys count keys buf) (type_keys interrupt count buf pc)
  unfolding read_keys type_keys b_getchar_sync
  keys-Taken zero keys buf pc h same = (pc, refl, same)
  keys-Taken (suc count) keys [] pc h same = refl
  keys-Taken (suc count) [] (b ∷ buf) pc h same =
      rw (keyboard.waits (record pc { ax = set_high 0 pc.ax }) (omega arith) same) refl
  keys-Taken (suc count) (c ∷ keys) (b ∷ buf) pc h same =
      let (ax, run, key) =
        keyboard.takes (record pc { ax = set_high 0 pc.ax }) c keys (omega arith) h.0 same in
      let pc1 = record pc { ax = ax; keys = keys } in
      rw (run, key)
        (Taken-more c (read_keys count keys buf) (type_keys interrupt count buf pc1)
          (keys-Taken count keys buf pc1 h.1 refl))

  -- Interrupt 16h is as documented, and the keys to come are bytes. The loop of `read` over `b_getchar_sync`
  -- fills the buffer with the keys that `read_keys` of Kernel takes and leaves the same keys, or
  -- stops as it does: where the buffer ends, or for ever where no key comes.
  pub type_keys-read_keys :
      (count : ℕ) (buf : List ℕ) (pc : Pc)
      → All (λ c. c < 256) pc.keys
      → Taken (read_keys count pc.keys buf) (type_keys interrupt count buf pc)
  type_keys-read_keys count buf pc h = keys-Taken count pc.keys buf pc h refl

  looked :
      (pc : Pc)
      → (ax : ℕ) × (interrupt 0x16 (record pc { ax = set_high 1 pc.ax })
          ≡ ok (record pc { ax = ax; zero_flag = is_empty pc.keys }))
  looked pc = keyboard.looks (record pc { ax = set_high 1 pc.ax }) (omega arith)

  -- Interrupt 16h is as documented, and a key, a byte, waits. `b_getchar`, which asks first, ends with any
  -- fuel above 0, gives that key and takes it, as `b_getchar_sync` does.
  pub b_getchar-b_getchar_sync :
      (fuel c : ℕ) (keys : List ℕ) (pc : Pc)
      → c < 256
      → pc.keys ≡ c ∷ keys
      → (pc' : Pc) × (pc'' : Pc) × (b_getchar interrupt (suc fuel) pc ≡ ok (c, pc'))
        × (b_getchar_sync interrupt pc ≡ ok (c, pc''))
        × (pc'.keys ≡ keys)
        × (pc''.keys ≡ keys)
  unfolding b_getchar b_getchar_sync wait_for_key
  b_getchar-b_getchar_sync fuel c keys pc h same =
      let (ax, run) = looked pc in
      let there = run ∙ ap (λ z. ok (record pc { ax = ax; zero_flag = is_empty z })) same in
      let pc1 = record pc { ax = ax; zero_flag = false } in
      let (ax1, run1, key1) =
        keyboard.takes (record pc1 { ax = set_high 0 ax }) c keys (omega arith) h same in
      let (ax2, run2, key2) =
        keyboard.takes (record pc { ax = set_high 0 pc.ax }) c keys (omega arith) h same in
      (
        record pc1 { ax = ax1; keys = keys },
        record pc { ax = ax2; keys = keys },
        (rw (there, run1, key1) refl),
        (rw (run2, key2) refl),
        refl,
        refl,
      )

  -- Where no key waits `b_getchar` runs out of any fuel: it asks for ever.
  pub wait_for_key_hangs :
      (fuel : ℕ) (pc : Pc) → pc.keys ≡ [] → wait_for_key interrupt fuel pc ≡ stop no_fuel
  unfolding wait_for_key
  wait_for_key_hangs zero pc same = refl
  wait_for_key_hangs (suc fuel) pc same =
      let (ax, run) = looked pc in
      let none_left : is_empty pc.keys ≡ true = ap is_empty same in
      rw (run, none_left) (wait_for_key_hangs fuel (record pc { ax = ax; zero_flag = true }) same)
