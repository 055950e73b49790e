-- ===== src/Cmd.antt =====
-- The commands of the shell in src/cmd.c: their list, and the parsing and dispatch of a line. Strings
-- are read on fuel, and `none` means that the fuel ran out; a line's address is not null. `kmalloc`'s
-- result is an argument.
pub mod Blanks
pub mod Word
mod Examples
use osc_riscv.Base.{
  ℕ, zero, suc, ◌+◌, ◌-◌, Bool, true, false, Option, none, some, ◌==◌, if◌then◌else◌, List, [], ◌∷◌,
  ◌++◌, update,
}
use osc_riscv.Ring.{Links, list_add_tail, list_for_each}
use osc_riscv.Text.{Ptr, Mem, null, Tok, strcmp, strlen, strchr, strtok, ◌>>=◌}
use osc_riscv.Printk.{Output, uart_puts}
use osc_riscv.Initrd.{copied, is_zero}

-- The functions that commands call.
pub data Func : Type 0 where
  cmd_help cmd_hello cmd_reboot cmd_clear cmd_ls cmd_cat cmd_exec : Func

-- `struct command`, known by the address of its list.
pub record Command : Type 0 where
  pub name : Ptr
  pub help : Ptr
  pub func : Func

pub record Commands : Type 0 where
  pub links : Links
  pub command : Ptr → Command

unfoldable pub register_command : (commands node : Ptr) → Command → Commands → Commands
register_command commands node c s = record {
  links = list_add_tail node commands s.links;
  command = update s.command node c;
}

abbrev pub isspace : ℕ → Bool
isspace c = c == 32

-- `while (isspace(*p)) p++;`
unfoldable pub skip_spaces : ℕ → Ptr → Mem → Option Ptr
skip_spaces zero p m = none
skip_spaces (suc fuel) p m =
    let rest = skip_spaces fuel (p + 1) m in if isspace (m p) then rest else some p

-- `while (end > input && isspace(*end)) *end-- = 0;`, where `end` is `input + n`.
unfoldable pub trim_end : (n : ℕ) (input : Ptr) → Mem → Mem
trim_end zero input m = m
trim_end (suc n) input m =
    let rest = trim_end n input (update m (input + suc n) 0) in
    if isspace (m (input + suc n)) then rest else m

-- `!strcmp(cmd->name, command)`; a name longer than the fuel is taken for another one.
unfoldable pub has_name : ℕ → (name command : Ptr) → Mem → Bool
has_name fuel name command m = elim (strcmp fuel name command m) [
  | none ↦ false
  | some r ↦ is_zero r
]

-- ": command not found\n"
abbrev pub no_command : List ℕ
no_command =
    58 ∷ 32 ∷ 99 ∷ 111 ∷ 109 ∷ 109 ∷ 97 ∷ 110 ∷ 100 ∷ 32 ∷ 110 ∷ 111 ∷ 116 ∷ 32 ∷ 102 ∷ 111 ∷ 117
    ∷ 110 ∷ 100 ∷ 10 ∷ []

-- How `exec_command` ends: it returns -1 with what it has printed, or it calls a function with its
-- arguments and returns 0.
pub data Executed : Type 0 where
  refused : Output → Executed
  called : Func → Ptr → Executed

-- The dispatch of a command.
unfoldable pub run_command :
    (fuel : ℕ) (commands command args : Ptr) → Mem → Output → Commands → Option Executed
unfolding has_name
run_command fuel commands command args m out s =
    list_for_each (λ pos. has_name fuel (s.command pos).name command m) fuel commands s.links
    >>= λ found. elim found [
      | some pos ↦ some (called (s.command pos).func args)
      | none ↦ strlen fuel command m >>= λ n.
          some (refused (uart_puts (copied n m command ++ no_command) out))
    ]

-- A line without spaces around it. `delim` is the address of " ".
unfoldable pub run_line :
    (fuel : ℕ) (commands delim input : Ptr) → Tok → Output → Commands → Option (Executed × Tok)
unfolding run_command
run_line fuel commands delim input t out s = strchr fuel input 32 t.mem >>= λ space.
    (if space == null then some null else skip_spaces fuel space t.mem) >>= λ args.
    strtok fuel input delim t >>= λ (command, t').
    run_command fuel commands command args t'.mem out s >>= λ e. some (e, t')

unfoldable pub exec_command :
    (fuel : ℕ) (commands delim input : Ptr) → Tok → Output → Commands → Option (Executed × Tok)
unfolding skip_spaces trim_end run_line
exec_command fuel commands delim input t out s = skip_spaces fuel input t.mem >>= λ input.
    strlen fuel input t.mem >>= λ n.
    let t' : Tok = record t { mem = trim_end (n - 1) input t.mem } in
    strlen fuel input t'.mem >>= λ len.
    if len == 0 then some (refused out, t') else run_line fuel commands delim input t' out s
