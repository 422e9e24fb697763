-- ===== src/Lib.antt =====
-- A model of pydatatask, a library for running pipelines of tasks whose jobs are named by
-- identifiers and whose inputs and outputs live in repositories.
--
-- The parts and how they interact. A repository yields the identifiers that it holds; derived
-- repositories filter, map, join and block others. A pipeline asks the ready repository of each
-- task for jobs, sorts them into batches by priority, and launches each batch with a leader and
-- workers that share a queue. A task that launches reserves resources with a quota manager and gives
-- them back. Streams of bytes between jobs go through queues.
--
-- Files:
-- Base: tests, lists, signed integers, identifiers, dictionaries and exceptions for all parts.
-- Quota: pydatatask/quota.py. `add`, `mul`, `sub` and `excess` are the methods of Quota; `register`,
--   `getter`, `flush`, `reserve` and `relinquish` those of QuotaManager. A method under the lock is one
--   step from a manager to a result and a manager; the callbacks read a world that is an argument.
-- Utils.Queue and Utils.Writer: QueueStream, AsyncReaderQueueStream and AsyncWriterQueueStream of
--   pydatatask/utils.py. A read that would sleep is the outcome `waits`.
-- Utils.Copy, Utils.Text and Utils.RoundRobin: async_copyfile, AReadText and roundrobin of the same file.
-- Repository: the classes of pydatatask/repository/base.py. A repository over a state of the world is a
--   record of its iteration, its membership test and its deletion; JobId has the checks of
--   identifiers, Filters the mapped and filtered repositories, Aggregate those that join or block
--   others, Related those that translate identifiers, InProcess and Blob those in memory.
-- Repository.Content: ContentAddressedBlobRepository of pydatatask/repository/filesystem.py. Paths has
--   `_splitpath`, Nodes the nested metadata and `_follow_path`, Store `dump` and `delete`, Open `get_type`,
--   `readlink`, `get_regular_meta` and `open` with its links, and Walk `walk` and `iter_members`. The
--   repositories of metadata and of blobs and the hash are parameters.
-- Pipeline: pydatatask/pipeline.py. gather_ready_jobs, the batches of update_only_launch and, in
--   Workers, its leader and workers as a step relation that any schedule of the event loop follows;
--   Rounds has the settings of a run, the time limits of `open` and a round of `update`.
-- Task: pydatatask/task.py. Link has the links of a task, their defaults and `_make_ready`; Process the
--   launch of a ProcessTask with the handler that cleans up, and in Process.Reap its update, `_reap` and
--   `_get_load`; Kube the launch, update and delete of a KubeTask. The managers, the templating and
--   the repositories are parameters; each of their actions may raise, and none but those of `pids`
--   touches the records of processes.
--   Container has the launch, the update and the load of a ContainerTask, and Futures the launch,
--   cancel and update of an ExecutorTask, and Hash the identifiers that `derived_hash` gives along a link.
-- Staging: pydatatask/staging.py. `specify`, `ready` and `allocate` of the records of a pipeline file, the reading of
--   their names in Specs, and in Files PipelineStaging: the files that a file imports, `missing`, `_get_repo`,
--   `_get_executor`, `_get_priority` and `_iter_children`.
-- Session: pydatatask/session.py. A manager is the next step of an asynchronous generator; `open_session` and `close` are
--   the methods open and close.
-- Declarative: the generic parsers of pydatatask/declarative.py over values read from YAML; what they are given, such as the
--   parsers of arguments and the constructors, are parameters. Keys of a mapping are texts.
--
-- Bounds and fuel. The loop of a queue's read is given one round for each line that is left and one
-- more, which `read` fixes itself, so that its result is never short of fuel. The rounds of
-- roundrobin are likewise fixed by the lists. async_copyfile and the loop that fills the buffer of AReadText
-- take their fuel as an argument: the theorem on the copy gives the fuel that is enough.
-- The loop of _splitpath is given one round for each part and one more, `_open` twelve calls, and `walk` three
-- rounds; each is enough for every input.
-- Pipeline files are loaded with fuel; enough is given if imports do not go in a circle.
-- Sizes and counts are unbounded, as Python's are; a negative size, which means all, is `none`.
-- Quantities are integer numbers of a fixed unit, in place of Python's Decimal, whose precision is
-- bounded.
--
-- Not modelled: the resolution of link keys; templates of shell commands, executors, network and
-- file services, the pickers of kinds in the configuration and the command line, which are input and output or calls
-- of other libraries. A callback of the user, a codec, a stream and a repository of another kind are
-- parameters. Coroutines that `asyncio.gather` runs are taken one after the other, but for the
-- workers of the launch phase, whose steps interleave in any order.
pub mod Base
pub mod Quota
pub mod Utils
pub mod Repository
pub mod Pipeline
pub mod Task
pub mod Session
pub mod Staging
pub mod Declarative
