-- ===== src/Lib.antt =====
-- The NexArm engine: the protocol of the arm's motor bus, the safety helpers that every session
-- drives the arm through, the service's sessions, workers, jobs, runners, datasets, access and events,
-- and the merge of recorded sessions.
--
-- A session worker reads and writes the arm over the bus, through the safety helpers; the session
-- manager holds one worker at a time; the job manager runs training jobs; all publish to the hub.
-- - Motors: packages/lerobot_robot_nexarm/src/lerobot_robot_nexarm/motors/nexarm.py. Motors.Frame has
--   build_frame and parse_frame, Motors.Reply _try_parse and _read_reply, Motors.Positions the
--   reads and writes of NexArmMotorsBus, Motors.Mapping map_leader_to_follower and its reverse.
-- - Safety: packages/nexarm_service/src/nexarm_service/safety.py. Safety.Limits has SOFT_LIMITS and
--   clamp_action, Safety.Rest capture_rest, Safety.Ramp ramp_to.
-- - Session: packages/nexarm_service/src/nexarm_service/session.py. Session has SessionManager's
--   methods, each run to its end; Session.Life one session while start, stop and tick interleave,
--   as a step relation with start_lock as a part of the state.
-- - Jobs: packages/nexarm_service/src/nexarm_service/jobs.py, JobManager over its job table.
-- - Arm: packages/nexarm_service/src/nexarm_service/arm_worker.py, FollowerGuard and ArmWorker with
--   the exception of each call as an argument.
-- - Coaching: packages/nexarm_service/src/nexarm_service/coaching.py, the controls and save_episode.
-- - Hosting: packages/nexarm_service/src/nexarm_service/remote_teleop.py, HostingWorker.
-- - Recording: packages/lerobot_robot_nexarm/src/lerobot_robot_nexarm/recording_session.py, the key
--   handler and run_manual_session.
-- - Operations, Curation: operations.py, OperationRunner, and set_excluded of dataset_store.py, both in
--   packages/nexarm_service/src/nexarm_service.
-- - Episodes: packages/nexarm_service/src/nexarm_service/record.py, the controls, _episode and _run of
--   RecordingWorker.
-- - Merge: packages/lerobot_robot_nexarm/src/lerobot_robot_nexarm/collection_merge.py. Merge.Compat has
--   merge_incompatibilities, Merge.Check check_session_mergeable, Merge merge_collection_session with
--   the disk after each of its changes.
-- - Access: in packages/nexarm_service/src/nexarm_service. Access.Auth has auth.py and where app.py
--   puts the token, Access.Profiles the store of profiles.py, Access.Servers the validation and the
--   ssh commands of servers.py.
-- - Runners: in packages/nexarm_service/src/nexarm_service. Runners.Local has kept_episodes and
--   LocalRunner of local_runner.py, Runners.Command its build_train_command with the check of the
--   extra arguments in jobs.py, Runners.Remote the _follow of remote.py.
-- - Datasets: packages/nexarm_service/src/nexarm_service/dataset_ops.py, the edits of DatasetOps.
-- - Devices: Devices.Follower has NexArmFollower, its connection, observation and idle protection, of
--   packages/lerobot_robot_nexarm/src/lerobot_robot_nexarm/nexarm_follower/nexarm_follower.py,
--   Devices.Leader the calibrated actions and the feedback of NexArmLeader, of
--   packages/lerobot_teleoperator_nexarm/src/lerobot_teleoperator_nexarm/nexarm_leader.py.
-- - Driving: in packages/nexarm_service/src/nexarm_service. Driving.Replay has ReplayWorker of
--   replay.py, Driving.Teleop TeleopWorker of teleop.py; both send through Safety.Limits.
-- - Rollout: packages/nexarm_service/src/nexarm_service/rollout.py and the hooks of coaching.py, how
--   a policy's worker releases the arm and stops, and in Rollout.Start how it starts.
-- - Remote: Remote.Stream has the loop of RemoteOperatorWorker in remote_teleop.py, Remote.Route the
--   handler remote_operator of routes/remote.py in packages/nexarm_service/src/nexarm_service, which
--   drives the station of Hosting, with parse_action.
-- - Frames: packages/nexarm_service/src/nexarm_service/dataset_store.py, the open containers of _decode.
-- - Artifact: packages/lerobot_robot_nexarm/src/lerobot_robot_nexarm/mobile_nexarm_artifact.py,
--   EpisodeArtifactWriter, and validate_episode_artifact in Artifact.Store.
-- - Archive: packages/nexarm_service/src/nexarm_service/archive.py, extract.
-- - Events: packages/nexarm_service/src/nexarm_service/events.py, EventHub and its bounded queues.
-- The proofs about a part are in the modules below it, and concrete runs in its Tests.
--
-- Numbers: bytes, ticks, ids and times are natural numbers; a position that may be negative is an
-- integer of Prelude.Int. The loop of _try_parse has as fuel one more than the bytes of the buffer,
-- and each round takes some away; the inner loop of _read_reply likewise. A scheduler call has as
-- many rounds as the table has jobs, and a round goes on only after a queued job has ended. The
-- loop over the episodes of a recording has one pass more than the episodes asked for and the
-- rounds of its control loop together. The loop that closes video containers has as fuel the open
-- ones, of which each round closes one. The loops of capture_rest and ramp_to count the code's own
-- attempts.
--
-- Parameters: the bytes that the serial port delivers, what a read, a clock, a worker, a runner or
-- a device does, what the Hub, a remote engine and the datasets library answer, Python's parsing of
-- addresses, paths and queries, stripping and printing, the video encoder, and the transitions, calls
-- and teardown of the library's strategies.
-- Not modelled: files, logs, HTTP, processes, the serial port itself, floating-point angles but for
-- the soft limits, the control loops over the lerobot library, the simulators and the policies.
pub mod Prelude
pub mod Motors
pub mod Safety
pub mod Session
pub mod Jobs
pub mod Arm
pub mod Artifact
pub mod Coaching
pub mod Events
pub mod Frames
pub mod Hosting
pub mod Recording
pub mod Operations
pub mod Curation
pub mod Merge
pub mod Archive
pub mod Devices
pub mod Driving
pub mod Datasets
pub mod Remote
pub mod Rollout
pub mod Runners
pub mod Access
pub mod Episodes
