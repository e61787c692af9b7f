-- ===== src/Tests/Echo.antt =====
-- A machine that has received three bytes: the rounds of the echo task and one trap on it.
use cyptos.Prelude.{true, arith, [], ◌∷◌}
use cyptos.Machine.{Machine}
use cyptos.UserTask.{user_echo_task}
use cyptos.UserTask.Echo.{Leaves, user_echo_task_lem}
use cyptos.Trap.Outcomes.{Handled, trap_handler-Handled}
use cyptos.Trap.{trap_handler}
use cyptos.Tests.Board.{board}
use cyptos.Tests.Table.{frame_of, trapped}

-- Two bytes on the line, a carriage return the second.
abbrev typed : Machine
typed = record (trapped 8) { console = record { sent = 36 ∷ []; rx = 104 ∷ 13 ∷ 255 ∷ [] } }

user_echo_task_lem_example :
    Leaves
      (user_echo_task board 0x8000_2010 5 (frame_of 7) typed)
      (36 ∷ 104 ∷ 13 ∷ 10 ∷ [])
      []
      typed
user_echo_task_lem_example =
    user_echo_task_lem board 0x8000_2010 (frame_of 7) typed 5
      (omega arith, (omega arith, (omega arith, tt))) (omega arith)

trap_handler-Handled_example :
    Handled board (frame_of 7) (trapped 8) true (trap_handler board (frame_of 7) (trapped 8))
trap_handler-Handled_example = trap_handler-Handled board (frame_of 7) (trapped 8) (omega arith)
