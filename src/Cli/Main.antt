-- ===== src/Cli/Main.antt =====
-- main of cmd/quicchat/main.go around its parts: how the process ends. The errors of the log, of the
-- start and of the interface enter as arguments.
use quicmeshpoc.Common.{ℕ, ◌+◌, Bytes, List, [], ◌++◌, text, length, str_eq, if◌then◌else◌}
use quicmeshpoc.Logging.{Opened, no_log, log_to}
use quicmeshpoc.Mesh.State.{Mesh, Effect}
use quicmeshpoc.Mesh.Links.{close}
use quicmeshpoc.Mesh.Start.{Started, failed_to_start, started}
use quicmeshpoc.Cli.{FlagEnd, no_fuel, exits, node, parse_args}

-- How program.Run returns, or that it panics.
pub data UiEnd : Type 0 where
  quit panic : UiEnd
  ui_error : Bytes → UiEnd

-- The status of the process, what it writes to the standard error, and what Close does to the links.
pub record Ending : Type 0 where
  pub code : ℕ
  pub stderr : Bytes
  pub effects : List Effect

abbrev pub exit : ℕ → Bytes → Ending
exit code stderr = record { code = code; stderr = stderr; effects = [] }

-- The interface and the deferred calls, with the links at its end: os.Exit skips the deferred calls,
-- and the one that recovers from a panic, which is first, exits too.
unfoldable pub run_ui : Bytes → Mesh → UiEnd → Ending
unfolding close text
run_ui id m quit = record { code = 0; stderr = []; effects = (close m).1 }
run_ui id m (ui_error e) = exit 1 (text "ui error: " ++ e)
run_ui id m panic = exit 1 (text "quicchat crashed; see logs/" ++ (id ++ text ".log"))

-- From NewMesh on; `evolve` is what becomes of the state while the interface runs.
unfoldable pub with_mesh : Bytes → (Mesh → Mesh) → UiEnd → Started → Ending
unfolding run_ui text
with_mesh id evolve end (failed_to_start e) = exit 1 (text "failed to start mesh: " ++ e)
with_mesh id evolve end (started m) = run_ui id (evolve m) end

unfoldable pub with_log : Bytes → Started → (Mesh → Mesh) → UiEnd → Opened → Ending
unfolding with_mesh text
with_log id start evolve end (no_log e) = exit 1 (text "failed to open log: " ++ e)
with_log id start evolve end (log_to log) = with_mesh id evolve end start

-- From the name on; `log_of` and `start` are logutil.New and NewMesh.
unfoldable pub with_name :
    (Bytes → Opened) → (Bytes → Started) → (Mesh → Mesh) → UiEnd → Bytes → Ending
unfolding with_log str_eq text
with_name log_of start evolve end id =
    if str_eq id []
    then exit 1 (text "usage: quicchat <nodeid> [-lighthouse https://host:port] [-insecure=false]")
    else with_log id (start id) evolve end (log_of id)

-- The whole of main; the flag package reports its own errors, and prints the help.
unfoldable pub client_main :
    (List Bytes → FlagEnd)
    → (Bytes → Opened)
    → (Bytes → Started)
    → (Mesh → Mesh)
    → UiEnd
    → List Bytes
    → Ending
unfolding parse_args with_name
client_main parse log_of start evolve end args = elim (parse_args parse (length args + 1) [] args) [
  | exits code ↦ exit code []
  | no_fuel ↦ exit 2 []
  | node id ↦ with_name log_of start evolve end id
]
