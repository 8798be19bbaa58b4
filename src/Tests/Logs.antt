-- ===== src/Tests/Logs.antt =====
-- The log at concrete inputs.
use rustdbg.Prelude.{◌≡◌, refl, none, some, [], ◌∷◌, ltb, if◌then◌else◌, length}
use rustdbg.MdbLog.{get_color_for_type, is_tracing, err}
use rustdbg.MdbLog.Trace.{Log, append_colored, trace_ln}
use rustdbg.MdbLog.Print.{trace_ln-prints}

abbrev plain_log : Log
plain_log = record { indent = 0xffff_ffff; type_bit_mask = 1 }

trace_ln-prints_example : trace_ln plain_log err (65 ∷ 66 ∷ []) ≡ (
    if is_tracing 1 err
    then (if ltb (length (append_colored [] (get_color_for_type err) (65 ∷ 66 ∷ []))) 512
        then some (append_colored [] (get_color_for_type err) (65 ∷ 66 ∷ []) ∷ [])
        else none)
    else some [])
trace_ln-prints_example = trace_ln-prints plain_log err (65 ∷ 66 ∷ []) refl
