-- ===== src/Lib.antt =====
-- Verification of the NetBox configuration backup plugin (netbox_config_backup).
--
-- The plugin collects device configurations on a schedule, stores the changed ones as revisions,
-- and deletes old revisions and runs by retention profiles. Modelled are:
--   Prelude      shared names, Boolean tests, exceptions as values, lists over the native numbers.
--   Choices      netbox_config_backup/choices.py: the enumerations.
--   Clock        Python's datetime as used here: UTC microseconds since 0001-01-01, aware or naive;
--                Clock/Calendar gives ISO weeks, months and years.
--   Records      netbox_config_backup/models.py: the columns that the services read and write.
--   Retention    netbox_config_backup/services/retention.py: the planner. Order is the sort,
--                Sampling the dictionary of reasons and its buckets, Revisions `_plan_revisions`,
--                Runs `_plan_runs`, Plan `build_retention_plan`, Policy the profile resolvers.
--   Scheduling   netbox_config_backup/services/scheduling.py: next runs, retries, target schedules.
--   Health       netbox_config_backup/services/health.py: health of a target, the refresh of all
--                targets, stuck runs. It asks Scheduling for the run that should have followed.
--   Pipeline     netbox_config_backup/services/backup.py with the interfaces of repository.py and
--                drivers/base.py: one run. Prepare is `_prepare_artifacts`, Gather the reads of
--                `execute`, Execute its writes, its commits and its `except` clauses; OnLocal gives a
--                run the file storage.
--   Repository   netbox_config_backup/services/django_repository.py: what a run writes to its row and
--                its target, and what it queues (with events.py and services/dispatcher.py's
--                failure_next_run). It implements the calls that Pipeline makes.
--   Replication  netbox_config_backup/services/replication.py: the life of one replica of a revision on
--                one remote storage; `_mark_running` is mark_replica_running, and so on.
--   Storage      netbox_config_backup/storage/base.py, and storage/local.py as Local. Quarantine and Undo
--                are the reversible deletion that the three services below each write out:
--                the staging loop, `_restore_staged`, the purge, and the except clause.
--   Archive      netbox_config_backup/models.py: the revisions, artifacts, replicas and runs of one target
--                that deletions change. Chain is services/revision_chain.py.
--   Cleanup      netbox_config_backup/services/retention_cleanup.py: the plan of a cleanup, and in Execute
--                what it does. It asks Retention for the plan.
--   Deletion     netbox_config_backup/services/revision_deletion.py: the checks ahead of the deletion of a
--                revision and its steps, which Execute puts together.
--                Target is services/target_deletion.py with services/target_deletion_ftp.py.
--   Dispatch     netbox_config_backup/services/dispatcher.py and services/queueing.py: one turn of the loop
--                (Turns) and the loop; Round is the whole dispatch. Cancel is services/run_cancellation.py.
--   ArchiveSafety netbox_config_backup/drivers/archive_safety.py: the checks on a device's backup archive.
--
-- A definition keeps the name of the function it models; a large function is cut into the parts
-- named in the comments. Python exceptions are `err` values, and where state survives an exception
-- (Pipeline) the function returns the result and the state. All loops are over lists, so no fuel is
-- needed.
--
-- Parameters, because their code is not in the repository: the timezone database and SHA-256
-- (Scheduling.Services), the job queue (Dispatch.JobQueue, Dispatch.Cancel.CoreJob), the members that
-- zipfile and tarfile read from an archive (ArchiveSafety.Content), and whether the database commits
-- (Cleanup, Deletion). Parameters at the border of a component: for a run its repository, storage,
-- driver, secret providers and hash (Pipeline.Env), and for a deletion the removal of one remote copy
-- (services/destination.py). What a theorem needs of them is a named hypothesis: a run's storage is a
-- Pipeline.StorageLaws.IsStorage and a reversible one a Storage.IsReversible. The file storage is shown
-- to fulfil both, in Pipeline.OnLocal and in Storage.Local.Laws, whichever of its calls fail.
--
-- Not modelled: `datetime.max` (dates beyond the year 9999); the texts of exceptions other than those
-- that the services raise themselves; the repository's read of the execution context; the loops of
-- replication and the remote destinations; the remote retention cleanup, but for what it writes to one
-- replica (Replication.Available); the extraction of archive members; the object store; concurrent
-- changes of one database beyond its unique constraints; drivers and transports, which talk to
-- devices; views, forms, tables, migrations and commands, which are
-- presentation or glue.
pub mod Prelude
pub mod Choices
pub mod Clock
pub mod Records
pub mod Retention
pub mod Scheduling
pub mod Health
pub mod Pipeline
pub mod Storage
pub mod Archive
pub mod Cleanup
pub mod Deletion
pub mod Dispatch
pub mod ArchiveSafety
pub mod Repository
pub mod Replication
