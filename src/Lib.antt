-- ===== src/Lib.antt =====
-- winecx-gptk: the Python tools under runtime/kosmickrisp that run games on the KosmicKrisp
-- driver, set up its prefix, and judge what happened, and the check of build archives.
--
-- The parts and their files:
--
-- * Prefix models runtime/kosmickrisp/dxvk-prefix.py: `install`, `restore` and `status` of the DXVK
--   DLLs in a Wine prefix. Prefix/Disk is what the program reads and writes (the files by their
--   paths, user.reg, the receipt, the backup directory) and the monad of its functions: a disk
--   goes in, a result or an error and a disk come out. Each write of the program takes the next
--   entry of a list of faults: it succeeds, fails before its effect, or fails after it. A run that
--   is killed at a write is one where that write and all later ones fail. Prefix/Checks has
--   `validate_prefix` and `destinations`, Prefix/Status has `identity`, `load_receipt` and `status`,
--   Prefix/Restore has `restore_locked`, `locked` and `restore`, Prefix/Install has `install`. The
--   receipt is kept as a record, not as JSON text; what the socket, the lock file, the directories
--   and kernel32.dll look like is one record `Tree` that a run does not change. SHA-256 is a
--   parameter, and nothing is assumed of it. `validate_payload` is not modelled: its result and
--   the files of the payload are a parameter. The removal of the backup directory is one write.
--   The proofs: Prefix/Triples has triples for the monad, Prefix/Recovery and its modules the
--   conditions that a stopped transaction leaves behind and what each function makes of them,
--   Prefix/Undo and its modules the whole transaction.
-- * Registry models `registry_values`, `edit_registry` and `installed_values` of the same program. Texts
--   are lists of code points without carriage returns, and letters are compared without case in
--   ASCII. Registry/Lines has `str.splitlines`, Registry/Headers the two tests for a section line,
--   Registry/Scan how the reader goes through the parts of an edited file, Registry/Others the lines
--   that an edit leaves as they were.
-- * Gameplay models the session classes of runtime/kosmickrisp/gameplay.py: `Session` (a drive in a
--   race), `StartupSession` (a start up to the menu) and `FocusRecovery`, and the texts on the screen
--   that they look for (Gameplay/Screen). Gameplay/Controller is `startup_controller`: what it
--   reads in a round is an input, what it sends to the window is a list of commands, and
--   Controller/Loop has its rounds. Gameplay/Launch has `command_for`: Launch/Walked
--   follows the settings of `--env` through its loops, Launch/Assigned what stands outside of them;
--   Gameplay/Checkpoint `confirmed_checkpoint`. Times are nanoseconds as naturals, exit statuses are integers of
--   Common/Int.
-- * Intervals models `union_ns` and `duration_summary` of runtime/kosmickrisp/investigation_analysis.py
--   and `overlap` and `covered` of runtime/kosmickrisp/stutter.py, with Python's sort as an insertion
--   sort on pairs.
-- * Waits models `exclusive_segments` and `attribute_waits` of runtime/kosmickrisp/investigation_analysis.py on
--   the events that have an interval. An id that is missing or null is `none`, no id is empty, and
--   `has_request_id` tells whether the key is there. A report is `none` where the code raises a
--   KeyError, as it does on a child that has work but no key of a request id.
--   Waits has the search for the events of a wait, Waits/Segments what a wait is cut into, Waits/Report the rows and
--   the report. A Counter is a list of keys with their sums.
-- * Phases models what analyze_run of the same program makes of the times in the logs: the start, the end,
--   the menu, the phases, the gaps between frames, and the wait attribution. The logs are a record;
--   how they are read from their files and how outcomes are counted is not modelled.
-- * Benchmark models runtime/kosmickrisp/benchmark.py: Benchmark/Jobs has `conditions`, the jobs of
--   `make_plan`, `verify` and `run`, Benchmark/Analysis has `analyze` up to the rows of its report, which
--   stand in the order of their first runs. The shuffled order of the conditions, what the
--   summaries say and how a command ends are inputs.
-- * Experiment models `compare_runs` of runtime/kosmickrisp/investigation_analysis.py; the values of a
--   field of the provenance are a parameter, with their equality and truth.
-- * Promotion models `digest_file`, `campaign_blockers` and `blockers` of runtime/kosmickrisp/promotion.py;
--   what `metrics` finds in a log is an input, and the floating-point numbers, with `<` and the two
--   products that compare the medians of two lanes, are a parameter.
--   Promotion/Readiness models `blockers` of runtime/kosmickrisp/readiness.py.
-- * Archive models tools/build/archive.py: `check_tar` on the members of an archive, with the paths of
--   pathlib as lists of parts, and `verify`.
-- * Investigate models runtime/kosmickrisp/investigate.py. Investigate/Guard is `guard_run`: what a run
--   meets is a list of ticks, one for each round of the loop, with the clock, the files, the
--   controller's state and an inspection of the process as they are read then, and records of how
--   the launch and the cleanup went; Guard/Loop has the loop, Guard/Ladder its checks in their order,
--   Guard/Verdict the verdict on a game that has ended, Guard/Run the launch and the cleanup.
--   Investigate/Campaign is `campaign` and the coordinator's part of `main`: the state is what the
--   directories of the runs hold, and each label has a trial, which says how a new run of it goes.
--   Campaign/Plan has `campaign_sequence` and `validate_plan`, Campaign/Evidence the host evidence.
--   A `guard_run` is one trial of a campaign; the outcomes are the same type. Investigate/Profile is
--   `ProfileTransaction` and `replace_save` of gameplay.py, on a disk with a list of faults as in
--   Prefix; a copy may also be torn, and leaves other contents then. The digests of files and
--   directories are parameters, of which nothing is assumed.
--   Investigate/Sampling has when the guard takes a stack sample, Investigate/Tailing how it
--   follows the files that the game appends to.
-- * Common has the names that the parts share: Boolean tests on naturals, lists, texts, integers.
--
-- Only the search of attribute_waits has fuel: `enough` of it, once for each id and twice for each event
-- that an id has (Waits/Ends proves it enough). Every other loop goes through a list.
--
-- Not modelled: in investigate.py the writing of reports and events, which may raise too, the lease of
-- the bottle, HostMonitor and the sampler's context, the control of Steam, `prepare_run` and
-- `recover`, whose results are inputs of the campaign; the controller of a drive and
-- `run_one` (gameplay.py), the frame analysis of stutter.py, the files of
-- `analyze_run`, the checks of a scene and the statistics of benchmark.py, the build tools, the C shims, the Swift
-- helper, and the shell scripts.
pub mod Common
pub mod Gameplay
pub mod Intervals
pub mod Registry
pub mod Phases
pub mod Prefix
pub mod Archive
pub mod Benchmark
pub mod Experiment
pub mod Promotion
pub mod Waits
pub mod Investigate
