-- ===== src/Lib.antt =====
-- A model of trilha-runner: the program that takes tasks of the trilha protocol from a local queue
-- or a control plane, gives each its own git worktree, lets an agent work there, runs the checks,
-- and reports the result.
--
-- Parts, and how they call each other:
-- - cmd/trilha-runner/worker.go claims items from the control plane, up to its capacity at once,
--   runs each, and hands the result to the outbox of cmd/trilha-runner/outbox.go;
-- - queue/queue.go picks the next task of a checkout, for a run on the command line;
-- - worktree/ opens the worktree that a run works in, and its doctor removes old ones;
-- - runner/runner.go decides whether a task may run, and where and how;
-- - runner/attempt_loop.go runs the attempts of one task: driver, commit, checks, retries by
--   runner/retry_policy.go; runner/agent.go gathers what the agent says meanwhile, which
--   internal/redact/redact.go cleans of secrets;
-- - driver/ runs the agent, in its own process or in this one, and sandbox/sandbox.go confines it to
--   a container; runner/report.go keeps what a review, a hunt or a repair hands over;
-- - queue/remote.go speaks to the control plane, and deployer/deployer.go runs the deployments that
--   the worker claims there;
-- - internal/taskcompat/taskcompat.go reads and moves task files with dependencies on other
--   projects, which package task of trilha-spec does not take.
--
-- Files, with the code that each models:
-- - Tasks.antt: Parse, Get, Save, Move and List of internal/taskcompat/taskcompat.go.
-- - Queue.antt: Local.Next, Local.blocker and ParseRepository of queue/queue.go; Queue/Remote.antt and
--   its children: the requests and answers of queue/remote.go.
-- - Retry.antt: classifyRetry, retryDelay, retryAfter, fieldInt and errorCodeFor of
--   runner/retry_policy.go.
-- - Attempts.antt: State.antt holds what attemptLoop keeps (Run: the task's status, the written
--   fields of Result, the calls of the driver) and what it asks of the world (World); Ending.antt
--   has needsInput, failEnvironment, the branch of a failed driver and finishReadOnly of
--   runner/work.go; Step.antt one round of run, with execute, verify and missingTool of
--   runner/verification.go; Loop.antt the preflight of runner/preflight.go and run.
-- - Runs.antt: Runner.Run of runner/runner.go up to the loop, resumeOrphan of runner/liveness.go, and
--   readOnly and target of runner/work.go.
-- - Worktrees.antt: Open and its modes of worktree/target.go, TaskOf and the names of
--   worktree/worktree.go; Worktrees/Doctor.antt: inspect, wanted and prune of worktree/doctor.go, and
--   its Totals.antt the loop of Doctor; Worktrees/Teardown.antt: Teardown of worktree/teardown.go.
-- - Worker.antt: runRemoteWorker of cmd/trilha-runner/worker.go, pass by pass; Worker/Items.antt:
--   executeWorkerItem, remoteDependencyBlocker, stringsCut and resultReport; Worker/Uploads.antt:
--   uploadArtifacts, over UploadArtifact of Queue/Remote/Uploading.antt; Worker/Outbox.antt:
--   deliver, flushOutbox, outboxPath and safeRunID of cmd/trilha-runner/outbox.go, with
--   pendingOutbox and outboxRoots in Worker/Outbox/Finding.antt, and
--   StatusError.Retryable of queue/remote.go.
-- - Syncer.antt: slug, protocolStatus, refuseDivergentTask and the task files of Materialize of
--   syncer/syncer.go.
-- - Agents.antt: agentSession and stateReporter of runner/agent.go, and Scan of
--   internal/redact/redact.go; Agents/Findings.antt has the data of runner/report.go and readSource,
--   Agents/Handing.antt handleReport, addFinding, addReply, addArtifact and the replies of reportOf.
--   Agents/Attaching.antt is attachReport of runner/work.go.
-- - Drivers.antt: validateAllowedHost of driver/ai.go, CredentialEnv, redactSecrets and tail of
--   driver/driver.go; Drivers/Tools.antt: the tools of driver/ai.go and signalled;
--   Drivers/Programs.antt and Drivers/Claude.antt: runArgsRaw, Exec and ClaudeCode of driver/exec.go;
--   Drivers/Checks.antt: runSandboxedCheck of driver/ai.go.
-- - Sandbox.antt: ensureImage, ensureUp and waitReady of sandbox/sandbox.go; Sandbox/Prepare.antt:
--   Docker.Prepare with its cleanup; Sandbox/Manifest.antt: FromAgent.
-- - Deployer.antt: the profiles, the environment and the texts of deployer/deployer.go;
--   Deployer/Commands.antt: runLogged, the loop of Execute and executeRollback; Deployer/Health.antt:
--   checkHealth; Deployer/Execute.antt: Execute. Deployer/Plan.antt has the list of tasks that the
--   loop refines.
-- - Prelude.antt: lists, texts and numbers that the others share. A text is the list of its bytes,
--   and case and space are those of ASCII.
--
-- What is outside is a parameter. Package task of trilha-spec is the record Tasks.Protocol, with
-- its laws in Tasks.Parsing.IsLawful; the protocol's limits and agent states are Agents.Protocol.
-- Git, the file system, the driver, the checks, the control plane and the clock are records of
-- answers: World by the number of the attempt, Setting once, Host and Scan by what is asked, Fleet
-- by the number of the request or the pass; docker, the processes and servers of a deployment, and
-- the control plane of Queue/Remote.antt answer by all that was asked of them before. What is done
-- to git, to docker and to the disk is a list of commands in order. JSON is decoded outside.
--
-- Bounds: the rounds of the attempt loop have max_attempts for fuel, one for each attempt, which
-- is what the loop runs; the claims of a pass of the worker have the capacity, one for each slot;
-- passes and posts go on for as long as the world does, and are counted by a parameter. A wait for a
-- service has 180 attempts of half a second or more, for its ninety seconds, the wait of a teardown
-- 31 checks, one every fifty milliseconds of its grace, and an upload three attempts, for its
-- counter. Durations and token counts are bit patterns of 64 bits where they are added or
-- multiplied.
--
-- Not modelled: logs, progress events, times and costs (floating point); the model's own loop of the
-- ai driver, its recovery and the JSON results of Claude Code; the git commands of the syncer; the
-- socket of the agent; the texts of prompts and checkpoints; the scripts, and the parsing of the
-- command line.
pub mod Agents
pub mod Attempts
pub mod Deployer
pub mod Drivers
mod Prelude
pub mod Queue
pub mod Retry
pub mod Runs
pub mod Sandbox
pub mod Syncer
pub mod Tasks
pub mod Worker
pub mod Worktrees
