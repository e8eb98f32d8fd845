-- ===== src/Tests/Logs.antt =====
-- One message of the logging interceptor.
use configfs.Prelude.{ℕ, ◌+◌, pos, true, ◌≡◌, ◌↔◌, List, [], ◌∷◌, ◌++◌, some}
use configfs.Strings.{codes}
use configfs.Logging.{
  Any, a_string, an_int, a_bool, Field, level_info, info, int_field, bool_field, Entry,
  interceptor_logger,
}
use configfs.Logging.Laws.{Reaches, entry_at, interceptor_logger_iff}

-- A logger is the number of callers to skip and the fields given to it.
abbrev Recorder : Type 0
Recorder = ℕ × List (Field ℕ)

abbrev skip : ℕ → Recorder → Recorder
skip n (k, fs) = (k + n, fs)

abbrev with : List (Field ℕ) → Recorder → Recorder
with gs (k, fs) = (k, fs ++ gs)

abbrev values : List (Any ℕ)
values = a_string (codes "code") ∷ an_int (pos 3) ∷ a_string (codes "ok") ∷ a_bool true ∷ []

abbrev sent : Entry Recorder ℕ
sent =
    entry_at skip with (0, []) (codes "done") info
      (int_field (codes "code") (pos 3) ∷ bool_field (codes "ok") true ∷ [])

interceptor_logger_iff_example :
    (interceptor_logger skip with (0, []) level_info (codes "done") values ≡ some sent)
    ↔ Reaches skip with (0, []) level_info (codes "done") values sent
interceptor_logger_iff_example =
    interceptor_logger_iff skip with (0, []) level_info (codes "done") values sent
