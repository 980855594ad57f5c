-- ===== src/Ipc.antt =====
-- src/common/ipc.c: what each function returns, from what its system calls return.
use runner_orchestrator.Base.{zero, Bool, true, false, ◌&&◌, not, if◌then◌else◌, ℤ, pos, negsuc}

-- How `mkfifo` ends; `exists` is EEXIST.
pub data Mkfifo : Type 0 where
  created exists refused : Mkfifo

unfoldable pub ipc_create_fifo : Mkfifo → ℤ
ipc_create_fifo created = pos 0
ipc_create_fifo exists = pos 0
ipc_create_fifo refused = negsuc 0

-- Whether `open` and `close` succeed, and what `write` returns.
pub record SendEnv : Type 0 where
  pub opens : Bool
  pub written : ℤ
  pub closes : Bool

abbrev pub is_error : ℤ → Bool
is_error (negsuc zero) = true
is_error other = false

unfoldable pub ipc_send_atomic : SendEnv → ℤ
ipc_send_atomic e =
    if not e.opens
    then negsuc 0
    else if not e.closes && not (is_error e.written)
    then negsuc 0
    else e.written
