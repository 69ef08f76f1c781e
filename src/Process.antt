-- ===== src/Process.antt =====
-- The process manager of core/infrastructure/process/manager.go, with the signals of
-- manager_unix.go beside it. `Os` is what the operating system answers; a process is its number. A
-- channel of `waitDone` is the number of the process that it waits for.
pub mod Lines
pub mod Stopping
use vyx.Base.{
  ℕ, zero, suc, Bool, true, false, List, [], ◌∷◌, ◌++◌, Option, none, some, if◌then◌else◌, ◌==◌,
  Text, Dict, lookup, insert, delete, is_some,
}
use vyx.Route.{is_empty}
use vyx.Worker.{Worker, Error, not_found, invalid_command, spawn_failed, stop_timeout}

-- The process group of a process, whether a signal reaches a group or a process, and whether a
-- process exits before the timeout.
pub record Os : Type 0 where
  pub getpgid : ℕ → Option ℕ
  pub kill : ℕ → Bool
  pub signal : ℕ → Bool
  pub exits_in_time : ℕ → Bool

pub record Manager : Type 0 where
  pub processes : Dict ℕ
  pub wait_done : Dict ℕ

unfoldable pub new : Manager
new = record { processes = []; wait_done = [] }

pub data ManagerError : Type 0 where
  of_worker : Error → ManagerError
  signal_failed : ManagerError

abbrev pub started : Text → Option ℕ → Manager → Option ManagerError × Manager
started id none m = (some (of_worker spawn_failed), m)
started id (some pid) m =
    (none, record { processes = insert id pid m.processes; wait_done = insert id pid m.wait_done })

-- `Spawn`; the argument is what `cmd.Start` gives.
unfoldable pub spawn : Option ℕ → Worker → Manager → Option ManagerError × Manager
spawn start w m =
    if is_empty w.command then (some (of_worker invalid_command), m) else started w.id start m

abbrev pub signalled : Os → ℕ → Option ℕ → Bool
signalled os pid none = os.signal pid
signalled os pid (some pgid) = os.kill pgid

-- SIGTERM to the group of a process, or to the process where it has no group.
unfoldable pub stop_process : Os → ℕ → Bool
stop_process os pid = signalled os pid (os.getpgid pid)

abbrev pub forgotten : Text → Manager → Manager
forgotten id m = record { processes = delete id m.processes; wait_done = delete id m.wait_done }

abbrev pub waited : Os → Text → Option ℕ → Manager → Option ManagerError × Manager
waited os id none m = (none, forgotten id m)
waited os id (some pid) m =
    if os.exits_in_time pid
    then (none, forgotten id m)
    else (some (of_worker stop_timeout), forgotten id m)

abbrev pub stop_found : Os → Text → Option ℕ → Manager → Option ManagerError × Manager
stop_found os id none m = (some (of_worker not_found), m)
stop_found os id (some pid) m =
    if stop_process os pid then waited os id (lookup id m.wait_done) m else (some signal_failed, m)

unfoldable pub stop : Os → Text → Manager → Option ManagerError × Manager
stop os id m = stop_found os id (lookup id m.processes) m

unfoldable pub ids_of : Dict ℕ → List Text
ids_of [] = []
ids_of ((id, pid) ∷ ps) = id ∷ ids_of ps

-- An ID that is gone meanwhile is no error.
abbrev pub last_error : Option ManagerError → Option ManagerError → Option ManagerError
last_error none last = last
last_error (some (of_worker not_found)) last = last
last_error (some e) last = some e

unfoldable pub stop_each :
    Os → List Text → Option ManagerError → Manager → Option ManagerError × Manager
stop_each os [] last m = (last, m)
stop_each os (id ∷ ids) last m =
    let (e, m') = stop os id m in stop_each os ids (last_error e last) m'

unfoldable pub stop_all : Os → Manager → Option ManagerError × Manager
stop_all os m = stop_each os (ids_of m.processes) none m

abbrev pub emit : Text → List Text → List Text
emit [] ls = ls
emit (b ∷ s) ls = (b ∷ s) ∷ ls

-- `processChunk` with the bytes of the line that has begun: the lines that it writes, and the rest.
unfoldable pub process_from : Text → Text → List Text × Text
process_from line [] = ([], line)
process_from line (b ∷ s) =
    let ended = process_from [] s in
    let going = process_from (line ++ b ∷ []) s in
    if b == 10 then (emit line ended.0, ended.1) else going

unfoldable pub process_chunk : Text → List Text × Text
process_chunk chunk = process_from [] chunk

-- `pipeLog` over what its reads give until it is cancelled or there is an error.
unfoldable pub pipe_log : Text → List Text → List Text
pipe_log partial [] = emit partial []
pipe_log partial (chunk ∷ chunks) =
    let (ls, rest) = process_chunk (partial ++ chunk) in ls ++ pipe_log rest chunks
