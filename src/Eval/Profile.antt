-- ===== src/Eval/Profile.antt =====
-- Cycle profiling: `handle_profile_cycles`, `start_profile` and `end_profile` (vm/src/eval.rs).
-- Labels and names are the bytes of their UTF-8 text; `^`, `$` and `#` are single bytes in it.
use mathlib.Core.Option
use nexus_zkvm.Base.{
  ℕ, zero, suc, ◌+◌, ◌-◌, Bool, true, false, Option, none, some, List, [], ◌∷◌, ◌++◌, ltb, leb,
  ◌==◌, ◌&&◌, if◌then◌else◌, u32_mod,
}
use nexus_zkvm.Base.Result.{Result, ok, err, panic, ok_or, invalid_profile_label}
use nexus_zkvm.Base.Exec.{Exec, throw, reads, modify, ◌>>=◌}
use nexus_zkvm.Syscalls.{get_label}
use nexus_zkvm.Eval.Machine.{NexusVm, Tracker}

-- What the UTF-8 decoder expects next: the start of a character, or `n` more continuation bytes,
-- the first of them from `lo` to `hi`.
pub data Utf8 : Type 0 where
  ready bad : Utf8
  expect : ℕ → ℕ → ℕ → Utf8

abbrev utf8_start : ℕ → Utf8
utf8_start b =
    if ltb b 0x80
    then ready
    else if ltb b 0xc2
    then bad
    else if ltb b 0xe0
    then expect 0 0x80 0xbf
    else if b == 0xe0
    then expect 1 0xa0 0xbf
    else if b == 0xed
    then expect 1 0x80 0x9f
    else if ltb b 0xf0
    then expect 1 0x80 0xbf
    else if b == 0xf0
    then expect 2 0x90 0xbf
    else if ltb b 0xf4
    then expect 2 0x80 0xbf
    else if b == 0xf4
    then expect 2 0x80 0x8f
    else bad

abbrev utf8_next : Utf8 → ℕ → Utf8
utf8_next ready b = utf8_start b
utf8_next bad b = bad
utf8_next (expect zero lo hi) b = if leb lo b && leb b hi then ready else bad
utf8_next (expect (suc n) lo hi) b = if leb lo b && leb b hi then expect n 0x80 0xbf else bad

abbrev utf8_ends : Utf8 → List ℕ → Bool
utf8_ends ready [] = true
utf8_ends bad [] = false
utf8_ends (expect n lo hi) [] = false
utf8_ends st (b ∷ bs) = utf8_ends (utf8_next st b) bs

-- `std::str::from_utf8(&s).ok()`.
unfoldable pub from_utf8 : List ℕ → Option (List ℕ)
from_utf8 bytes = if utf8_ends ready bytes then some bytes else none

-- `label.split('#').last()`: what follows the last `#`, with `part` before it read so far.
unfoldable pub last_part : List ℕ → List ℕ → List ℕ
last_part part [] = part
last_part part (b ∷ bs) = last_part (if b == b'#' then [] else part ++ b ∷ []) bs

-- Names are compared byte by byte.
unfoldable pub same_name : List ℕ → List ℕ → Bool
same_name [] [] = true
same_name [] (b ∷ bs) = false
same_name (a ∷ as') [] = false
same_name (a ∷ as') (b ∷ bs) = a == b && same_name as' bs

unfoldable pub find_entry : Tracker → List ℕ → Option (ℕ × ℕ)
find_entry [] name = none
find_entry ((n, e) ∷ t) name = if same_name n name then some e else find_entry t name

unfoldable pub put_entry : Tracker → List ℕ → ℕ × ℕ → Tracker
put_entry [] name e = (name, e) ∷ []
put_entry ((n, old) ∷ t) name e =
    if same_name n name then (n, e) ∷ t else (n, old) ∷ put_entry t name e

-- `entry(name).or_insert((now, 0)).1 += 1`, on the tracker.
unfoldable pub open_entry : ℕ → Option (ℕ × ℕ) → Result (ℕ × ℕ)
open_entry now none = ok (now, 1)
open_entry now (some (clk, counter)) =
    if ltb (counter + 1) u32_mod then ok (clk, counter + 1) else panic

-- `*counter -= 1`, and the cycles since the start once no call is open.
unfoldable pub close_entry : ℕ → Option (ℕ × ℕ) → Result (ℕ × ℕ)
close_entry now none = err invalid_profile_label
close_entry now (some (clk, zero)) = panic
close_entry now (some (clk, suc zero)) = if ltb now clk then panic else ok (now - clk, 0)
close_entry now (some (clk, suc (suc n))) = ok (clk, suc n)

module _ {S P : Type 0} where
  abbrev store_entry : List ℕ → ℕ × ℕ → Exec (NexusVm S P) Unit
  store_entry name e =
      modify (λ vm. record vm { cycle_tracker = put_entry vm.cycle_tracker name e })

  unfoldable pub start_profile : List ℕ → Exec (NexusVm S P) Unit
  unfolding open_entry find_entry put_entry
  start_profile name = do
    e ← reads (λ vm. open_entry vm.cycle_count (find_entry vm.cycle_tracker name))
    store_entry name e

  unfoldable pub end_profile : List ℕ → Exec (NexusVm S P) Unit
  unfolding close_entry find_entry put_entry
  end_profile name = do
    e ← reads (λ vm. close_entry vm.cycle_count (find_entry vm.cycle_tracker name))
    store_entry name e

  -- The first character of the label says whether a call starts or ends.
  abbrev run_profile : List ℕ → Exec (NexusVm S P) Unit
  run_profile [] = throw invalid_profile_label
  run_profile (b ∷ bs) =
      if b == b'^'
      then start_profile (last_part [] (b ∷ bs))
      else if b == b'$'
      then end_profile (last_part [] (b ∷ bs))
      else throw invalid_profile_label

  abbrev take_label : Exec (NexusVm S P) (Option (List ℕ))
  take_label vm =
      let popped = get_label vm.syscalls in (ok popped.0, record vm { syscalls = popped.1 })

  unfoldable pub handle_profile_cycles : Exec (NexusVm S P) Unit
  unfolding start_profile end_profile last_part from_utf8
  handle_profile_cycles = do
    popped ← take_label
    label ← reads (λ _. ok_or (Option.bind popped from_utf8) invalid_profile_label)
    run_profile label
