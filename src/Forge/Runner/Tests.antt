-- ===== src/Forge/Runner/Tests.antt =====
-- Runs of a process, and the theorems at concrete inputs.
use hermes_forge_public.Prelude.{
  ℕ, ◌+◌, ◌<◌, ◌≡◌, refl, true, List, [], ◌∷◌, ◌++◌, length, arith, ok,
}
use hermes_forge_public.Forge.Runner.{
  Process, new, start, drain, read_output, read_output_tail, tail_loop, reverse_onto, max_out_buf,
  read_size,
}
use hermes_forge_public.Forge.Runner.Output.{Event, run, printed, run-length, run-conserves}
use hermes_forge_public.Forge.Runner.Tail.{IsTail, read_output_tail-IsTail}

-- The bytes of a and a newline, and of b and a newline.
abbrev line_a : List ℕ
line_a = 97 ∷ 10 ∷ []

abbrev line_b : List ℕ
line_b = 98 ∷ 10 ∷ []

abbrev script : List Event
script =
    Event.starting (ok 7)
    ∷ Event.printing line_a
    ∷ Event.reading
    ∷ Event.printing line_b
    ∷ Event.starting (ok 8)
    ∷ Event.tailing 1
    ∷ []

read_and_captured :
    run script new ≡ (line_a, record new { started = true; pid = 7; out_buf = line_b })
unfolding start drain read_output
read_and_captured = refl

run-length_example : length (run script new).1.out_buf < max_out_buf + read_size
run-length_example =
    run-length script new (tt, (omega arith, (tt, (omega arith, (tt, (tt, tt)))))) (omega arith)

run-conserves_example : (run script new).0 ++ (run script new).1.out_buf ≡ printed script
run-conserves_example = run-conserves script new (omega arith)

abbrev two_lines : Process
two_lines = record new { started = true; out_buf = line_a ++ line_b }

last_line : read_output_tail 1 two_lines ≡ line_b
unfolding read_output_tail tail_loop reverse_onto
last_line = refl

nothing_of_two : read_output_tail 20 two_lines ≡ []
unfolding read_output_tail tail_loop reverse_onto
nothing_of_two = refl

read_output_tail-IsTail_example : IsTail 20 (line_a ++ line_b) (read_output_tail 20 two_lines)
read_output_tail-IsTail_example = read_output_tail-IsTail 20 two_lines (omega arith)
