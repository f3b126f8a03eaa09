-- ===== src/Lib.antt =====
-- The reconciler of bay: the part of the framework that runs on a box, compares the containers the
-- deploy wants with those docker reports, and applies the difference; and the receiver of pushes.
--
-- A deploy hands the box a bundle of container specs. `__main__.reconcile` observes docker (sdk_client,
-- observe), computes a plan (planner), applies it (executor) and reports what it did, with the commit
-- that each container runs (images). All of it is Python under src/bay_reconcile.
--
--   Prelude       names of the standard library that all parts use; dictionaries in insertion order
--                 (Assoc), Python's text functions (Text), `sorted` and sets (Sort, Order),
--                 exceptions as values (Result), integers over the native numbers (Int).
--   Json          values as `json.load` returns them.
--   Model         src/bay_reconcile/models.py: specs, states, actions, plans and results;
--                 Model.Durations has the healthcheck durations.
--   Bundle        src/bay_reconcile/bundle.py: a bundle read into specs (Bundle) and a configuration
--                 (Bundle.Settings); Bundle.Given tells each field of a spec from its entry.
--   Observe       src/bay_reconcile/observe.py: `parse_state` and the normal forms of ports and
--                 volumes. Observe.Labels also has the labels that `SdkDockerClient.create` writes
--                 (src/bay_reconcile/sdk_client.py).
--   Planner       src/bay_reconcile/planner.py: `plan`; Planner.Memory and Planner.Describe have the
--                 report of `describe` with its reasons.
--   Executor      src/bay_reconcile/executor.py: `_apply` and what it calls, as programs of calls to
--                 the daemon (Executor.Calls, for src/bay_reconcile/docker_client.py). Executor.Fleet
--                 states what a call does to the containers of a box, Executor.Hoare reasons about
--                 programs under such a contract, and Executor.Pool is the thread pool of
--                 `_run_batch`, one step for each call of a thread. Executor.Phases is `execute` with
--                 its phases.
--   Images        src/bay_reconcile/images.py: references and commit tags.
--   PushInputs    src/bay_reconcile/pushinputs.py: which pushed files are build inputs.
--   Codepin       src/bay_reconcile/codepin.py: Codepin.Plan is `plan_moves`, Codepin.Lock the build lock,
--                 Codepin.Guard the guarded daemon and `pin_code`, with Codepin.Excluded on what the lock
--                 excludes; Codepin.Records the records of failed
--                 builds and the report. Codepin.Lawful states docker's rules of tags.
--   Webhook       roles/git_deploy/files/webhook/app.py, the receiver of pushes: routing and siblings;
--                 Webhook.Deliveries is the replay cache and Webhook.Filter decides whether a push
--                 changes a build input, by the rules that PushInputs has for rebuild.sh.
--                 Webhook.Front is the check of a request, and Webhook.Push the handling of a push for
--                 a service and its siblings, with the lookups of a push for its alerts in
--                 Webhook.Lookups and the trigger files, whole or cut short, in Webhook.Written.
--   Cron          src/bay_cli/cron.py: cron lines as systemd calendar expressions.
--   Filters       filter_plugins/bay_filters.py: which services build, use an image or get a pull signal.
--                 Filters.Siblings is about the services that one push builds together, by the
--                 account of Filters.Candidates and Filters.Same. Webhook.Pulls joins the
--                 consumers with the receiver.
--   Receipt       src/bay_reconcile/receipt.py: the fields of a receipt's rows and `stamp_receipt`;
--                 Receipt.Build is `build_receipt`, and Receipt.Files has the files of a receipt, with
--                 every place where a write can fail or be killed. Receipt.Reported joins it with the
--                 report of a pass.
--   Reconcile     src/bay_reconcile/__main__.py: `reconcile` and `main`. Reconcile.Converge joins the planner
--                 and the executor: what a pass leaves to do for the next one.
--   Status        `_state_after` of src/bay_reconcile/__main__.py.
--   Creation      the arguments of `SdkDockerClient.create` (src/bay_reconcile/sdk_client.py).
--   Samples       the box of the tests; Tests runs the definitions on it and applies the theorems.
--
-- Python's `None` is `none`, a raised exception the `err` of a Result or the `throw` of a program, and
-- a dictionary an association list that keeps the place of a key. A set that the source sorts at once
-- is a list without repetitions. Text is made of code points, `lower` and the digits of `\d`
-- are those of ASCII. Integers are unbounded as in Python.
--
-- Parameters stand for what is not in the repository. The docker daemon may answer every call with
-- any result, an exception too; Executor.Fleet has what docker documents about the containers
-- after each call. Floats stay literals, and `Python` (Json) and `Clock` (Executor) have what the
-- interpreter makes of them. The attributes of a container have docker's documented shape. `Regex`
-- (PushInputs) is Python's module `re`. `Images` (Codepin) is the daemon's side of the protocol with
-- that name, and `Os` (Codepin.Lock) has `flock`, the clock and the sleep. `Pathspec`
-- (Webhook.Filter) is the library of that name, and `Box` (Webhook.Push) has what the disk and the
-- other receivers answer; `Host` (Reconcile) is the box as a pass reads it. Reconcile.Observed has what
-- docker shows of the containers that `create` made, and `Tools` (Receipt.Main) is what `main` of
-- receipt.py takes from Python. The HMAC of a body (Webhook.Front) and the hash of a build and the
-- slug of a repository (Filters) are functions.
--
-- Loops recur on the list they read or on the number of attempts that are left, and a program is
-- a finite tree of calls, so each ends for every answer. Fuel is that of `show_nat`
-- (Prelude.Text), n + 1 for a number n, where any fuel above n gives the same digits; that of
-- `range_from` (Cron), the end and one more, which every step of one or more uses up; and the number of
-- tries of `wait_lock` (Codepin.Lock), where each sleep must bring the end of the wait nearer.
--
-- The names that `bay_build_dedup_map` gets are those of services with an entry, whose `build` is not
-- null (the code raises otherwise, the model takes an empty entry), and the files of a pull signal
-- can all be written (the code stops at the first that cannot).
--
-- Not modelled: the HTTP server, the alerts and the loading of the config of the receiver; the labels,
-- volumes and repository groups of the filters; argparse, the printing of JSON, the rest of the
-- docker-py adapter (sdk_client.py), and the routes and section hashes of src/bay_reconcile, which no
-- decision of the reconciler reads; and the operator's command line (src/bay_cli but for cron.py), which
-- runs ssh, git and ansible.
pub mod Bundle
pub mod Codepin
pub mod Creation
pub mod Cron
pub mod Executor
pub mod Filters
pub mod Images
pub mod Json
pub mod Model
pub mod Observe
pub mod Planner
pub mod Prelude
pub mod PushInputs
pub mod Receipt
pub mod Reconcile
pub mod Samples
pub mod Status
pub mod Tests
pub mod Webhook
