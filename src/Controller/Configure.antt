-- ===== src/Controller/Configure.antt =====
-- controller_handlers.c: the state at the start of the program.
use runner_orchestrator.Base.{
  ℕ, suc, ◌<◌, refl, inl, true, false, List, [], ◌∷◌, take, ℤ, pos, negsuc, arith,
}
use runner_orchestrator.Protocol.{RpcMessage}
use runner_orchestrator.Controller.State.{ControllerState, Env}
use runner_orchestrator.Controller.Messages.{serve}
use runner_orchestrator.Controller.Invariant.{IsValid}
use runner_orchestrator.Controller.Invariant.Keep.{serve-IsValid}

abbrev fcfs_name : List ℕ
fcfs_name = b'f' ∷ b'c' ∷ b'f' ∷ b's' ∷ []

-- `atoi` of the first argument, unless that is not positive.
abbrev pub limit_of : (atoi : List ℕ → ℤ) → List (List ℕ) → ℕ
limit_of atoi (program ∷ limit ∷ more) = elim (atoi limit) [ pos (suc n) ↦ suc n | _ ↦ 4 ]
limit_of atoi other = 4

-- `strncpy` into the 32 bytes of `policy`, the last of which ends the text.
abbrev policy_of : List (List ℕ) → List ℕ
policy_of (program ∷ limit ∷ policy ∷ more) = take 31 policy
policy_of other = fcfs_name

-- `argv` holds `argc` arguments, the program's name first; `atoi` is the C library's. The queues are
-- as `controller_init_queues` leaves them when there is memory for both.
unfoldable pub controller_configure : (atoi : List ℕ → ℤ) (argv : List (List ℕ)) → ControllerState
controller_configure atoi argv = record {
  parallel_limit = limit_of atoi argv;
  running_count = 0;
  keep_running = true;
  is_shutting_down = false;
  shutdown_requester_pid = negsuc 0;
  last_scheduled_user = negsuc 0;
  fair_users = [];
  fair_user_capacity = 0;
  waiting_queue = [];
  running_queue = [];
  policy = policy_of argv;
}

limit_of-positive : (atoi : List ℕ → ℤ) (argv : List (List ℕ)) → 0 < limit_of atoi argv
limit_of-positive atoi [] = omega arith
limit_of-positive atoi (program ∷ []) = omega arith
limit_of-positive atoi (program ∷ limit ∷ more) = ground arith

pub controller_configure-IsValid :
    (atoi : List ℕ → ℤ) (argv : List (List ℕ)) → IsValid (controller_configure atoi argv)
unfolding controller_configure
controller_configure-IsValid atoi argv = record {
  base = record {
    counted = refl;
    slots = limit_of-positive atoi argv;
    bounded = omega arith;
    room = omega arith;
    running = tt;
    waiting = tt;
  };
  busy = inl refl;
}

-- Whatever the arguments of the program and however `atoi` reads the first, the state is valid after any
-- messages: `running_count` is the length of the running queue and at most `parallel_limit`, which is
-- positive; the entries of `fair_users` are within the allocated array; every running job is marked as
-- running and every waiting one as queued; and no job waits while a slot is free.
pub serve-IsValid_from_start :
    (atoi : List ℕ → ℤ) (argv : List (List ℕ)) (msgs : List (Env × RpcMessage))
    → IsValid (serve (controller_configure atoi argv) msgs).0
serve-IsValid_from_start atoi argv msgs =
    serve-IsValid (controller_configure atoi argv) msgs (controller_configure-IsValid atoi argv)
