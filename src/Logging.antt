-- ===== src/Logging.antt =====
-- New of internal/logutil/logutil.go: where a program logs to.
use quicmeshpoc.Common.{ℕ, Bytes, Bool, Option, none, some, text, ◌++◌}

-- slog's level, which is signed, is its distance from slog.LevelDebug here.
pub record Log : Type 0 where
  pub path : Bytes
  pub level : ℕ
  pub also_stderr : Bool

pub data Opened : Type 0 where
  no_log : Bytes → Opened
  log_to : Log → Opened

-- The errors of os.MkdirAll and of os.OpenFile, if there are any; filepath.Join enters as `join`.
unfoldable pub open_log :
    (Bytes → Bytes → Bytes) → Bytes → ℕ → Bool → Option Bytes → Option Bytes → Opened
unfolding text
open_log join name level also_stderr (some e) open_err = no_log (text "create logs dir: " ++ e)
open_log join name level also_stderr none (some e) =
    no_log (text "open " ++ (join (text "logs") (name ++ text ".log") ++ (text ": " ++ e)))
open_log join name level also_stderr none none = log_to (record {
  path = join (text "logs") (name ++ text ".log");
  level = level;
  also_stderr = also_stderr;
})

-- What Recover logs of a panic, which then ends the goroutine and nothing else.
pub record PanicEntry : Type 0 where
  pub place : Bytes
  pub panic : Bytes
  pub stack : Bytes

-- Recover, where `panicked` is what recover() returns, printed, with the stack.
unfoldable pub recover : Bytes → Option (Bytes × Bytes) → Option PanicEntry
recover place none = none
recover place (some (panic, stack)) = some (record { place = place; panic = panic; stack = stack })
