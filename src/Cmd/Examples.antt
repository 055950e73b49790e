-- ===== src/Cmd/Examples.antt =====
-- The theorem on src/cmd.c, applied to the line "  ls  " and a list of one command.
use osc_riscv.Base.{ℕ, inr, ◌≡◌, refl, [], ◌∷◌, some, arith, ◌==◌, if◌then◌else◌}
use osc_riscv.Ring.{init_list_head}
use osc_riscv.Ring.Add.{init_list_head-IsRing, list_add_tail-IsRing}
use osc_riscv.Ring.Chain.{IsRing}
use osc_riscv.Text.{Mem, Tok}
use osc_riscv.Cmd.{Command, Commands, cmd_ls, register_command, exec_command}
use osc_riscv.Cmd.Blanks.{spaced}
use osc_riscv.Cmd.Word.{outcome, cleared, exec_command-outcome}

-- The line at 100, " " at 200 and "ls" at 300.
abbrev memory : Mem
memory a =
    if a == 100
    then 32
    else if a == 101
    then 32
    else if a == 102
    then 108
    else if a == 103
    then 115
    else if a == 104
    then 32
    else if a == 105
    then 32
    else if a == 200
    then 32
    else if a == 300
    then 108
    else if a == 301
    then 115
    else 0

abbrev ls : Command
ls = record { name = 300; help = 0; func = cmd_ls }

abbrev none_yet : Commands
none_yet = record {
  links = init_list_head 1 (record { prev = λ p. 0; next = λ p. 0 });
  command = λ p. ls;
}

abbrev commands : Commands
commands = register_command 1 16 ls none_yet

commands-IsRing : IsRing commands.links 1 (16 ∷ [])
unfolding register_command
commands-IsRing =
    list_add_tail-IsRing none_yet.links 16 1 []
      (init_list_head-IsRing (record { prev = λ p. 0; next = λ p. 0 }) 1) refl

exec_command-outcome_example :
    (t' : Tok) × (exec_command 9 1 200 100 (record { next = 0; mem = memory }) [] commands
      ≡ some (outcome (λ p. 108 ∷ 115 ∷ []) commands (16 ∷ []) (108 ∷ 115 ∷ []) [], t'))
    × ((a : ℕ) → t'.mem a ≡ cleared (108 ∷ 115 ∷ []) 2 104 memory a)
unfolding register_command spaced
exec_command-outcome_example =
    exec_command-outcome 9 1 200 commands (λ p. 108 ∷ 115 ∷ []) (16 ∷ []) commands-IsRing
      (omega arith) 2 2 100 (108 ∷ 115 ∷ []) (record { next = 0; mem = memory }) [] (ground arith)
      (ground arith) (ground arith) (inr (omega arith)) (λ e. absurd (omega (arith, e)))
      (ground arith) (inr (omega arith), tt) (omega arith)
