-- ===== src/Display/ServiceLog.antt =====
-- The log buffer of internal/display/servicelog.go. The oldest entry stands first.
pub mod Tail
use companion_mission_planne.Base.{
  ℕ, zero, suc, ◌+◌, ◌-◌, Bool, true, false, List, [], ◌∷◌, ◌++◌, Text, text_Eq, text_eq, codes,
  length, drop, ltb, format_uint, if◌then◌else◌,
}

-- logEntry: a line and how many times in a row it came.
pub record LogEntry : Type 0 where
  pub text : Text
  pub count : ℕ

pub record LogBuffer : Type 0 where
  pub buf : List LogEntry
  pub max : ℕ

-- newLogBuffer
unfoldable pub new_log_buffer : ℕ → LogBuffer
new_log_buffer max = record { buf = []; max = max }

-- Whether the newest entry has that text.
unfoldable pub ends_with : Text → List LogEntry → Bool
unfolding text_eq
ends_with s [] = false
ends_with s (e ∷ []) = text_eq e.text s
ends_with s (e ∷ f ∷ buf) = ends_with s (f ∷ buf)

-- b.buf[n-1].count++
unfoldable pub count_last : List LogEntry → List LogEntry
count_last [] = []
count_last (e ∷ []) = record e { count = e.count + 1 } ∷ []
count_last (e ∷ f ∷ buf) = e ∷ count_last (f ∷ buf)

-- b.buf[len(b.buf)-b.max:] where the buffer is longer than its bound
unfoldable pub trim_front : ℕ → List LogEntry → List LogEntry
trim_front max buf = if ltb max (length buf) then drop (length buf - max) buf else buf

-- push
unfoldable pub push : Text → LogBuffer → LogBuffer
unfolding ends_with count_last trim_front
push s b =
    if ends_with s b.buf
    then record b { buf = count_last b.buf }
    else record b { buf = trim_front b.max (b.buf ++ record { text = s; count = 1 } ∷ []) }

-- snapshot: the lines as they are shown; the sign between the brackets is U+00D7 in UTF-8.
show_entry : LogEntry → Text
unfolding format_uint
show_entry e =
    if ltb 1 e.count
    then e.text ++ codes "  (" ++ (0xC3 ∷ 0x97 ∷ []) ++ format_uint e.count ++ codes ")"
    else e.text

unfoldable pub snapshot : List LogEntry → List Text
unfolding show_entry
snapshot [] = []
snapshot (e ∷ buf) = show_entry e ∷ snapshot buf

-- The lines of a journal, pushed in turn.
unfoldable pub push_all : List Text → LogBuffer → LogBuffer
unfolding push
push_all [] b = b
push_all (s ∷ lines) b = push_all lines (push s b)
