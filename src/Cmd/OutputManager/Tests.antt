-- ===== src/Cmd/OutputManager/Tests.antt =====
-- A manager on which the theorems about cmd/output_manager.go are tried.
use logtailr.Base.{some, ◌+◌, ◌≡◌, true, false, List, [], ◌∷◌, String, if◌then◌else◌, str_eq}
use logtailr.Base.Result.{ok, err}
use logtailr.Output.Tests.{sample_writers, good, message_line}
use logtailr.Cmd.OutputManager.{
  Outputs, new_output_manager, close_manager, close_writer, handle, handle_all, write_one, write_to,
  perform_swap, replace_writer,
}
use logtailr.Cmd.OutputManager.Order.{
  Op, write_line, swap_to, round, run, admitted, settled, count_lines, count_writes,
  close_manager-run, dropped-run,
}

-- configurations are texts, of which "bad" has no writer
abbrev sample_outputs : Outputs
sample_outputs = record {
  writers = sample_writers;
  Config = String;
  create_writer = λ c. if str_eq c "bad" then err "unknown output" else ok good;
}

abbrev ops : List (Op sample_outputs)
ops =
    write_line (message_line "a")
    ∷ round
    ∷ write_line (message_line "b")
    ∷ swap_to "bad"
    ∷ swap_to "file"
    ∷ write_line (message_line "c")
    ∷ []

-- "a" and "b" go to the first writer, which is closed by the second swap; "c" goes to the second
close_manager-run_example :
    (close_manager sample_outputs
      (run sample_outputs ops (new_output_manager sample_outputs good))).sink
    ≡ record {
      writer = some (record { fails = false; taken = "c" ∷ []; is_closed = true });
      closed =
          record { fails = false; taken = "a" ∷ "b" ∷ []; is_closed = true }
          ∷ record { fails = false; taken = "c" ∷ []; is_closed = true }
          ∷ [];
    }
unfolding new_output_manager close_writer handle handle_all write_one write_to perform_swap
    replace_writer admitted settled
close_manager-run_example =
    close_manager-run sample_outputs ops (new_output_manager sample_outputs good)

dropped-run_example :
    (run sample_outputs ops (new_output_manager sample_outputs good)).dropped + 3 ≡ 3
unfolding new_output_manager admitted count_lines count_writes
dropped-run_example = dropped-run sample_outputs ops (new_output_manager sample_outputs good)
