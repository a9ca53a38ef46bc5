-- ===== src/Syscalls.antt =====
-- System calls (vm/src/syscalls.rs). A method that takes `&mut self` returns the state that it
-- leaves behind, beside its result. Writing to standard output appends to `stdout`, which the
-- model adds, and does not fail.
use nexus_zkvm.Base.{
  ℕ, Bool, true, false, Option, none, some, List, [], ◌∷◌, ◌++◌, ◌==◌, if◌then◌else◌,
}
use nexus_zkvm.Base.Result.{Result, ok, err, panic, ◌>>=◌, index, unknown_ecall}
use nexus_zkvm.Memory.Controller.{Controller, load_n}

-- `label` is a stack: its last element in the source comes first here.
pub record Syscalls : Type 0 where
  pub to_stdout : Bool
  pub log_buffer : List (List ℕ)
  pub input : List ℕ
  pub output : List ℕ
  pub label : List (List ℕ)
  pub stdout : List ℕ

-- `Syscalls::default()`.
abbrev pub default_syscalls : Syscalls
default_syscalls = record {
  to_stdout = false;
  log_buffer = [];
  input = [];
  output = [];
  label = [];
  stdout = [];
}

pub data SyscallCode : Type 0 where
  write_log read_from_private_input write_to_output profile_cycles : SyscallCode

-- The discriminant, `code as u32`.
abbrev pub code_number : SyscallCode → ℕ
code_number write_log = 1
code_number read_from_private_input = 2
code_number write_to_output = 3
code_number profile_cycles = 5

-- `SyscallCode::try_from`.
unfoldable pub try_from : ℕ → ℕ → Result SyscallCode
try_from pc syscode =
    if syscode == 1
    then ok write_log
    else if syscode == 2
    then ok read_from_private_input
    else if syscode == 3
    then ok write_to_output
    else if syscode == 5
    then ok profile_cycles
    else err (unknown_ecall pc syscode)

abbrev pub enable_stdout : Syscalls → Syscalls
enable_stdout s = record s { to_stdout = true }

abbrev pub disable_stdout : Syscalls → Syscalls
disable_stdout s = record s { to_stdout = false }

abbrev pub set_input : Syscalls → List ℕ → Syscalls
set_input s slice = record s { input = slice }

abbrev pub get_output : Syscalls → List ℕ
get_output s = s.output

abbrev pub get_log_buffer : Syscalls → List (List ℕ)
get_log_buffer s = s.log_buffer

abbrev pop_label : Syscalls → List (List ℕ) → Option (List ℕ) × Syscalls
pop_label s [] = (none, s)
pop_label s (l ∷ rest) = (some l, record s { label = rest })

-- `get_label` pops the last label.
unfoldable pub get_label : Syscalls → Option (List ℕ) × Syscalls
get_label s = pop_label s s.label

abbrev pop_input : Syscalls → List ℕ → Result ℕ × Syscalls
pop_input s [] = (ok 0xffff_ffff, s)
pop_input s (b ∷ rest) = (ok b, record s { input = rest })

unfoldable pub read_private : Syscalls → Result ℕ × Syscalls
read_private s = pop_input s s.input

-- What a method does with the bytes that it loaded; nothing changes if the load fails.
abbrev with_bytes : Syscalls → Result (List ℕ) → (List ℕ → ℕ × Syscalls) → Result ℕ × Syscalls
with_bytes s (ok bs) k = (ok (k bs).0, (k bs).1)
with_bytes s (err e) k = (err e, s)
with_bytes s panic k = (panic, s)

module _ {S P : Type 0} (mem : Controller S P) where
  unfoldable pub writelog : Syscalls → ℕ → ℕ → S → Result ℕ × Syscalls
  writelog s source len memory = with_bytes s (load_n mem memory source len) λ nxt. (
    0,
    if s.to_stdout
        then record s { stdout = s.stdout ++ nxt }
        else record s { log_buffer = s.log_buffer ++ nxt ∷ [] },
  )

  unfoldable pub write_output : Syscalls → ℕ → ℕ → S → Result ℕ × Syscalls
  write_output s source len memory =
      with_bytes s (load_n mem memory source len) λ bs. (0, record s { output = s.output ++ bs })

  unfoldable pub push_label : Syscalls → ℕ → ℕ → S → Result ℕ × Syscalls
  push_label s source len memory =
      with_bytes s (load_n mem memory source len)
        λ buf. (code_number profile_cycles, record s { label = buf ∷ s.label })

  abbrev dispatch : Syscalls → ℕ → ℕ → S → SyscallCode → Result ℕ × Syscalls
  dispatch s a1 a2 memory write_log = writelog s a1 a2 memory
  dispatch s a1 a2 memory read_from_private_input = read_private s
  dispatch s a1 a2 memory write_to_output = write_output s a1 a2 memory
  dispatch s a1 a2 memory profile_cycles = push_label s a1 a2 memory

  abbrev decoded : Syscalls → S → Result (SyscallCode × ℕ × ℕ) → Result ℕ × Syscalls
  decoded s memory (ok (code, a1, a2)) = dispatch s a1 a2 memory code
  decoded s memory (err e) = (err e, s)
  decoded s memory panic = (panic, s)

  -- `Syscalls::syscall`: the number is in x18, the arguments are in x11 and x12.
  unfoldable pub syscall : Syscalls → ℕ → List ℕ → S → Result ℕ × Syscalls
  unfolding try_from writelog read_private write_output push_label
  syscall s pc regs memory = decoded s memory (
      index regs 18 >>= λ number. try_from pc number >>= λ code.
      index regs 11 >>= λ a1. index regs 12 >>= λ a2. ok (code, a1, a2))
