-- ===== src/Lib.antt =====
-- A model of codebridge, a bridge between a chat platform and command line coding agents: a chat
-- message becomes a job of its channel, the jobs of a channel run one after the other, and long
-- answers go back in pieces that the platform accepts.
--
-- Parts, and the files that model them (paths below the repository's root):
--   * Util.Chunk: codebridge/util/chunk.py. `chunk_text` splits a text at newlines; the closure
--     `flush` and the loop's body are functions on the record of its local variables. The inner
--     loop has the line's length as fuel, enough since each round takes a character.
--   * Security.Totp: codebridge/security/totp.py. The limiter of failed codes (`Limiter`, with its
--     dictionary of states) and `verify_totp`, over pyotp as a parameter. Times are in ticks of
--     which a second has a fixed number; the source's are floats.
--   * Sessions.Queue: codebridge/sessions/queue.py. The records; Sessions.Queue.Worker is the
--     worker of one channel, with its task cut at every `await`, as a state with one function per
--     stretch between two of them; Sessions.Queue.Manager is the dictionary of workers with the
--     counter of job ids. The queue, the pending jobs and the future's holder share request
--     objects, so a worker has a store of objects by number. Worker/Steps and Manager/Ids are the
--     step relations: every interleaving of clients, event loop and tasks is a sequence of steps.
--   * Sessions.State: the stored records of codebridge/sessions/state.py. Sessions.State.Json:
--     their JSON form (`_to_dict`, `_from_dict`, `_migrate_legacy`), with its values and
--     `parse_bool` of codebridge/util/coerce.py in Sessions.State.Values; Sessions.State.Store:
--     `Store` with its cache. Store.Refines has the interleavings of one process with others that
--     write the file.
--   * Sessions.Stored: the settings of a session in codebridge/sessions/service.py, each call of
--     `SessionService` that reads or writes the stored state as a function on that state;
--     Sessions.Tracking: the running processes, conflicts and activities that it keeps in memory;
--     Sessions.Service: the calls that change both.
--   * Sessions.Coordinator: codebridge/sessions/coordinator.py, the queue and the service together.
--   * Routing.Names, Routing.Repos and Routing.Output: the functions on session names, on the
--     stored state, on flags, URLs and output of codebridge/routing/helpers.py; Util.Path: the
--     names of codebridge/util/path.py.
--   * Commands.Parse: codebridge/commands/parse.py; Commands.Shortcuts:
--     codebridge/commands/shortcuts.py.
--   * Dispatch.Closer: `TaskCloser` of codebridge/dispatch/closer.py, over an interface for the
--     commands it runs, the chat and the stored sessions; Dispatch.Output: the messages of
--     codebridge/dispatch/output.py.
--   * Dispatch.Process: the functions of the closer, the orchestrator and the worktrees that run
--     git and gh as processes with a time limit.
--   * Dispatch.Parser: codebridge/dispatch/parser.py. Dispatch.Orchestrator and its child Run:
--     codebridge/dispatch/orchestrator.py, as tasks (Dispatch.Program) that ask calls of the world
--     and are given any outcome of each, exceptions and cancellation among them. Agents that work
--     together are tasks of their own, and their calls are interleaved in any order that keeps each
--     task's.
--   * Handlers.Core: `handle_start` and `handle_resume` of codebridge/handlers/core.py over the
--     coordinator; Handlers.Session: what they are given and answer; Handlers.Busy: `repo_busy` of
--     codebridge/routing/router.py; Handlers.Backends: the model and the backend of a session, with
--     the names that codebridge/agents/factory.py knows.
--   * Services.Worktree: codebridge/services/worktree.py, over an interface for git, the file system
--     and the clock; Services.Worktree.Remove: its `remove`, with the search for the repository.
--     Calls come back with a value or one of the exceptions that the handlers tell apart (Failure of
--     Dispatch.Program), in the closer too.
--
-- In the other modules the store of the sessions is its content: `Store.load` returns it, and
-- `Store.update` replaces it by what the mutator makes of a copy. A state file is JSON there.
--
-- Base has the shared types: a text is a list of code points, a Python dict an association list in
-- insertion order. What Python does with characters beyond ASCII in `lower`, `upper`, `isdigit` and
-- `int`, the clock and third-party packages are parameters of the definitions that use them.
--
-- Not modelled: the bindings of the chat platform, what processes and the file system do, the other
-- handlers of single commands and the text of their replies, the backends' command lines and the
-- reading of their output, the reading of the configuration, and the logs.
pub mod Base
pub mod Util
pub mod Security
pub mod Sessions
pub mod Routing
pub mod Commands
pub mod Dispatch
pub mod Services
pub mod Handlers
