-- ===== src/Proxy/Stream/Tests.antt =====
-- Schedules of a short stream: one that runs to its end, and one that the client cancels while the
-- upstream stalls.
use Prim.Native.String.{◌++◌ as concat}
use llmapi_gate_way.Common.Result.{Result, done, failed}
use llmapi_gate_way.Handler.Gateway.{StreamResult}
use llmapi_gate_way.Proxy.Connections.{
  new_connection_manager, open_body, register, close, update_activity,
}
use llmapi_gate_way.Proxy.Stream.{
  StreamChunk, strip_prefix, event_of, forwarded, estimate, add_choices, count_chunk, count,
  no_tokens, render, tally,
}
use llmapi_gate_way.Proxy.Stream.Machine.{
  context_done, pipe_closed, client_failed, ends, stalls, scanning, ended, reading, finished,
  waiting, returned, Shared, State, state, is_closed, take_bytes, drop_bytes, Step, Run, start,
}
use llmapi_gate_way.Proxy.Stream.Bound.{lines_weight, Run-length}
use llmapi_gate_way.Proxy.Stream.Proper.{IsGone, Run-IsGone}
use llmapi_gate_way.Proxy.Stream.Progress.{is_over, CanStep, Run-step}
use llmapi_gate_way.Proxy.Stream.Exact.{Run-client, Run-returned}
use llmapi_gate_way.Proxy.Stream.Cause.{Run-error}
use llmapi_gate_way.Common.{
  ◌+◌, ◌≤◌, String, ◌≡◌, refl, ◌⊎◌, true, false, none, some, List, [], ◌∷◌, ◌==◌, if◌then◌else◌,
}
use llmapi_gate_way.Common.Int.{pos, ◌+ℤ◌}
use llmapi_gate_way.Common.Assoc.{lookup, insert, delete}
use llmapi_gate_way.Common.Time.{at}

-- A decoder of two chunks: contents of 11 runes, and a usage.
abbrev decode : String → Result String StreamChunk
decode text =
    if text == "{a}"
    then done (record { choices = "hello world" ∷ "" ∷ []; usage = none })
    else if text == "{u}"
    then done (record {
      choices = [];
      usage = some (record { prompt_tokens = pos 7; completion_tokens = pos 5 });
    })
    else failed "invalid character"

counts_estimates :
    tally decode ("data: {a}" ∷ "" ∷ "data: {b}" ∷ "data: {a}" ∷ []) no_tokens
    ≡ record { prompt_tokens = pos 0; completion_tokens = pos 4 }
unfolding tally event_of strip_prefix count count_chunk add_choices estimate ◌+ℤ◌
counts_estimates = refl

usage_overrides :
    tally decode ("data: {a}" ∷ "data: {u}" ∷ "data: [DONE]" ∷ "data: {a}" ∷ []) no_tokens
    ≡ record { prompt_tokens = pos 7; completion_tokens = pos 5 }
unfolding tally event_of strip_prefix count count_chunk add_choices estimate ◌+ℤ◌
usage_overrides = refl

-- A blank line of the upstream follows the two line feeds that a data line is forwarded with.
blank_lines_double :
    render ("data: {a}" ∷ "" ∷ "data: [DONE]" ∷ []) ≡ "data: {a}\n\n\ndata: [DONE]\n\n"
unfolding render event_of strip_prefix forwarded
blank_lines_double = refl

abbrev lines : List String
lines = "data: {a}" ∷ "data: [DONE]" ∷ []

abbrev begun : State
begun = start "s" "body" 5 new_connection_manager lines

-- At the end the client has everything, and the connection is closed.
abbrev one_chunk : StreamResult
one_chunk = record { prompt_tokens = pos 0; completion_tokens = pos 2 }

abbrev at_end : Shared
at_end = record {
  write_end = some none;
  read_end = some none;
  result = one_chunk;
  client = "data: {a}\n\ndata: [DONE]\n\n";
  pool = record new_connection_manager { closed_bodies = "body" ∷ [] };
  cancelled = false;
}

abbrev answered : State
answered = state ended (finished none) (returned one_chunk none) at_end

-- Every line is taken, read, delivered and resumed from in turn.
whole-Run : Run decode "s" "body" stalls 10 begun answered
unfolding start register event_of strip_prefix forwarded take_bytes drop_bytes count count_chunk
    add_choices estimate ◌+ℤ◌ update_activity close lookup insert delete open_body
    new_connection_manager
whole-Run =
    Run.then
      (Run.then
        (Run.then
          (Run.then
            (Run.then
              (Run.then
                (Run.then
                  (Run.then (Run.then (Run.then Run.stay (Step.takes refl)) (Step.reads refl))
                    Step.delivers)
                  (Step.resumes 6))
                (Step.takes refl))
              (Step.reads refl))
            Step.delivers)
          (Step.resumes 7))
        (Step.read_fails refl))
      Step.copy_ends

Run-length_example : 10 ≤ 5 + lines_weight lines
Run-length_example = Run-length decode "s" "body" 5 new_connection_manager lines whole-Run

Run-client_example : (more : String) × (concat at_end.client more ≡ render lines)
Run-client_example = Run-client decode "s" "body" 5 new_connection_manager lines whole-Run

Run-returned_example : (at_end.client ≡ render lines) × (one_chunk ≡ tally decode lines no_tokens)
Run-returned_example = Run-returned decode "s" "body" 5 new_connection_manager lines whole-Run

Run-IsGone_example : (is_closed at_end ≡ true) × IsGone "s" "body" at_end.pool
Run-IsGone_example = Run-IsGone decode "s" "body" 5 new_connection_manager lines whole-Run

-- The request is cancelled while the reader waits for an upstream that stalls.
abbrev silent : Shared
silent = record {
  write_end = none;
  read_end = none;
  result = no_tokens;
  client = "";
  pool =
      register "s"
        (record {
          id = "s";
          upstream_body = some "body";
          created_at = at 5;
          last_activity = at 5;
          closed = false;
        })
        new_connection_manager;
  cancelled = true;
}

silent-Run :
    Run decode "s" "body" stalls 1
      (start "s" "body" 5 new_connection_manager [])
      (state (scanning []) reading waiting silent)
unfolding start
silent-Run = Run.then Run.stay (Step.cancels refl)

Run-step_example :
    (is_over (state (scanning []) reading waiting silent) ≡ true)
    ⊎ CanStep decode "s" "body" stalls (state (scanning []) reading waiting silent)
Run-step_example =
    Run-step decode "s" "body" stalls 5 new_connection_manager [] silent-Run (λ _. refl)

-- The caller interrupts, the copier's read fails, and the caller returns.
abbrev given_up : Shared
given_up = record silent {
  write_end = some (some context_done);
  read_end = some (some context_done);
  pool = record new_connection_manager { closed_bodies = "body" ∷ [] };
}

given_up-Run : Run decode "s" "body" stalls 4 (start "s" "body" 5 new_connection_manager []) (
    state
      (scanning [])
      (finished (some pipe_closed))
      (returned no_tokens (some context_done))
      given_up)
unfolding start register close delete lookup insert open_body new_connection_manager
given_up-Run =
    Run.then
      (Run.then (Run.then (Run.then Run.stay (Step.cancels refl)) (Step.interrupts refl))
        (Step.read_fails refl))
      Step.drains

Run-error_example :
    (given_up.cancelled ≡ true)
    ⊎ (((t : String) × (context_done ≡ client_failed t)) ⊎ (stalls ≡ ends (some context_done)))
unfolding new_connection_manager
Run-error_example = Run-error decode "s" "body" 5 new_connection_manager [] refl given_up-Run
