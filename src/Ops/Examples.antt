-- ===== src/Ops/Examples.antt =====
-- A text with a quote, escaped and read again.
use limonitor.Common.{◌≡◌, [], ◌∷◌, ◌++◌, some}
use limonitor.Ops.{escape_json_str, read_string, read_string-escape_json_str}

read_string-escape_json_str_example :
    read_string (escape_json_str (72 ∷ 34 ∷ 10 ∷ []) ++ (44 ∷ []))
    ≡ some (72 ∷ 34 ∷ 10 ∷ [], 44 ∷ [])
read_string-escape_json_str_example = read_string-escape_json_str (72 ∷ 34 ∷ 10 ∷ []) (44 ∷ [])
