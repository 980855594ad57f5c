-- ===== src/Lib.antt =====
-- A verification library for Runner-Orchestrator: a controller that lets a bounded number of commands run
-- at once, and runners that submit them over FIFOs. A runner sends SUBMIT and waits for its ACK; it runs the
-- command and sends DONE. The controller keeps the jobs that run and those that wait, and chooses the next
-- one by one of three policies: first come first served, random, or fair between users. STATUS_REQ asks for a
-- report on both queues, SHUTDOWN_REQ for the end of the controller once no job is left.
--
-- Parts, and the files that model them:
-- * include/common/protocol.h, the messages: Protocol.
-- * include/controller/scheduler.h, the jobs: Scheduler/Job.
-- * src/controller/scheduler.c, the queues. Scheduler/Queue translates each function to a program on a
--   heap of nodes (Store): `load`, `set_next` and `free` on NULL or on an address without a node end as
--   `invalid`, and a loop that runs out of its rounds ends as `endless`; a theorem that a program `Ends`
--   excludes both. Scheduler/Jobs says what each operation does to the list of jobs, and is the contract
--   that the controller is modelled on; Scheduler/Queue/Chain relates nodes to lists, and the files beside
--   it are on one operation each.
-- * `choose_next_user` and `choose_next_fair_user` of scheduler.c: Scheduler/Fair; the order in which users
--   have their turn is given in Scheduler/Fair/TurnOrder without indices, and Scheduler/Fair/Waiting counts
--   who has his turn before another; Scheduler/Jobs/Starvation is on one removal, Controller/Remembered and
--   the files beside it on the handlers: Keep on the users that are remembered, Turns, Steps and Progress on
--   the turns while messages are handled, Starvation on any run.
-- * `queue_copy_fair_to_array` of scheduler.c: Scheduler/Preview.
-- * include/controller/controller_handlers.h, the state, and src/controller/controller_handlers.c:
--   Controller/State, Controller/Handlers (submission, completion, start, shutdown), Controller/Status (the
--   report), Controller/Messages (dispatch), Controller/Configure (the start). A handler maps the state and
--   the message to the new state and the list of what it does outside.
-- * src/controller/controller.c, the program: `serve` in Controller/Messages is one loop over messages, which
--   the theorems on sequences of messages are about; Controller/Main has `main` itself, with its nested
--   loops. The two queues are created and destroyed on the heap in Controller/Queues.
-- * The handlers and the loop once more, with pointers to linked nodes for the queues: Controller/Linked. There
--   Two and Operations are on two queues in one heap, Views, Steps and Finish on what a handler does to one of
--   them, Answers and Loop on `start_waiting_jobs`, and Dispatch, Messages and Messages/Served on the handlers,
--   on whole messages and on the whole run.
-- * src/runner/parser.c, the parser of a command line: Parser. Parser/RoundTrip and Parser/Pipeline say which
--   text stands for which stages. Parser/Memory has the same functions with the blocks that `malloc` returned,
--   and `parser_destroy`: `free` of what is not in use ends as `invalid`.
-- * src/runner/executor.c, the pipelines: Executor, over the open files of a process (Descriptors).
--   Executor/Child is on what a child has open when it runs its program, Executor/Parent on the parent, and
--   Executor/Status on the results.
-- * src/common/ipc.c, the calls on the FIFOs: Ipc.
-- * include/runner/runner_cli.h, src/runner/runner_cli.c and src/runner/runner.c: Runner. A run is its exit
--   status and the list of what it does outside; Runner/Traces has the lemmas for automata that read such a
--   list, Runner/Tidy and Runner/Turns have one each. Runner/Command composes the runner with the parser and
--   the executor, Runner/Report with the controller's report, Runner/Shutdown with the controller's end.
-- * The controller and its runners as processes that exchange messages: System, a step relation whose steps
--   use the controller's dispatch and the runner's messages. System/Accounts counts what is outstanding
--   between them, System/Reachable says what holds in every reachable state.
--
-- The outside comes in as data: the results of `malloc`, `realloc`, `rand`, `open` and `write`, the time and
-- the pid are fields of Env, which comes with each message, or arguments; `atoi` is a parameter of
-- `controller_configure` and `runner_main`. A `send` is an attempt: whether the FIFO of a runner opens is not
-- seen by the state. The results of the calls of the executor are in ExecEnv and ChildEnv, those of a runner in
-- RunnerEnv; the choice of a new descriptor is a parameter, of which only is assumed that the descriptor is
-- not open. In Parser/Memory and Controller/Linked `malloc` itself is a parameter, of which is assumed that it
-- returns NULL or what is not in use; it may return an address again that was freed. What it answered in a run
-- of Controller/Linked is noted beside the result, and is what the controller on lists is given. The queues of the controller's state are lists; the C arrays with their counts are lists too.
--
-- In System, SUBMIT, STATUS_REQ, SHUTDOWN_REQ and DONE come into the controller's FIFO whole and in order, from
-- runners alone; a message of the controller may be lost, and a runner may end at any time, where `faults` says
-- so. The texts of a report are read by steps of their own.
--
-- Bounds: the C integers are ℤ and sizes are ℕ, without wrap-around: a queue and `fair_users` hold fewer
-- than 2^31 entries. Each loop over the nodes of a queue has `size + 1` rounds, one for every node and one
-- for NULL. The loop of `start_waiting_jobs` has a round for every job that waits at its start, since each
-- round takes one out; `copy_fair_loop` has one for every job that can be copied. The loop of `parse_stage` has
-- one round more than the text has bytes, since each round but the last takes a byte at least. `stage_loop`
-- has a round for each stage, and `wait_loop` one for each child.
--
-- Not modelled: what a program does once `execvp` has run it, and the order in which processes run within a
-- pipeline; diagnostic output.
pub mod Base
pub mod Protocol
pub mod Store
pub mod Scheduler
pub mod Controller
pub mod Parser
pub mod Descriptors
pub mod Executor
pub mod Ipc
pub mod Runner
pub mod System
pub mod Tests
