-- ===== src/Lib.antt =====
-- A verification library for the services of tensorgrid, a system that runs large models on a cluster
-- of machines. Paths are from the repository's root.
--
-- The parts and how they interact. The coordinator keeps the nodes and their state and offers them as
-- one logical cluster; the planner turns a cluster and a model into an execution plan, stages of layers
-- on nodes; the scheduler admits sessions and reserves nodes for them; the executor runs a plan's stages
-- for a session, prompt first and then token by token; the tensor directory says on which nodes each
-- tensor lies; the fine-tuning service trains models beside them. An agent on each machine registers it
-- with the coordinator and sends its heartbeats. All share the data of crates/cluster-types.
--
--   * Types: the data of crates/cluster-types/src/lib.rs, field by field. Identifiers are numbers,
--     times nanoseconds, u32 and u64 fields natural numbers.
--   * Directory: services/tensor-directory/src/lib.rs. `TensorDirectory` is the two maps behind the
--     locks, each method a function on them under its own name; `Directory.Spec` is what a directory
--     promises.
--   * Executor: services/pipeline-executor/src/lib.rs. `Executor` is the map of the sessions.
--   * Planner: services/planner/src/lib.rs, which keeps no state; `partition_model` is split into
--     its branches, and its loop is `assign_layers`.
--   * Scheduler: services/scheduler/src/lib.rs. `Scheduler` is the cluster, the sessions and the node
--     allocations; the sort of `select_nodes` is an insertion sort with the source's comparison.
--   * Coordinator: services/coordinator/src/main.rs, api.rs and planner.rs. `ClusterState` is the map of
--     the nodes; a handler or a round of the heartbeat monitor is one event, and `Uuid::parse_str` is a
--     parameter.
--   * Pairing: crates/secure-pairing/src/lib.rs. `PairingManager` is the pending challenges, the keys of
--     the nodes and the coordinator's own; `Crypto` is what the signature, hash and printing crates give.
--   * Registry: services/model-registry/src/lib.rs. `ModelRegistry` is the map of the models; what it
--     reads of files is an argument.
--   * FineTuning: services/fine-tuning/src/lib.rs. `Service` is the jobs and the training tasks, each
--     with its place in `run_training`; `Step` interleaves the calls with the tasks' steps, and a call or
--     a task that wants to write waits while a task holds a read guard.
--   * Gguf: crates/model-format/src/lib.rs. A file is its bytes; a reader takes the bytes that are left and
--     gives a value and the rest. `Host` is the byteorder crate and the allocator. A text is its UTF-8
--     bytes, a float its bit pattern. Gguf/Encoding.antt and Gguf/File.antt write the format.
--   * Transport: transports/tcp, transports/quic and transports/rdma (src/lib.rs of each). What a socket
--     delivers, and whether it takes what is written, is an argument; `Json` is serde_json.
--   * Runtime: runtimes/cpu, ggml, cuda, rocm and mlx (src/lib.rs of each). A call gives its answer with
--     the time that it sleeps; Runtime/Contract.antt has the interface that the five share.
--   * Topology: crates/topology/src/lib.rs. The latencies are an argument.
--   * Probe: crates/hardware-probe/src/lib.rs, over what sysinfo, WMI, the build and the file system say.
--   * Agent: services/node-agent/src. `NodeAgent` is the agent, `Loop` the variables of its heartbeat loop
--     with what it has sent; a round takes the answers that it meets. Agent/Forgotten.antt runs it with the
--     coordinator's handlers.
--   * HashMap: std's map as an association list; Float: f32 and f64 as an interface; Base: lists,
--     machine words and Rust's `Result`.
--
-- Conventions. A method that takes a lock for its whole body is one step on the state. The clock, and
-- everything that a method reads from outside, is an argument. Machine arithmetic wraps as in a release
-- build; `none` is a panic where a definition says so. Maps iterate in the order of their lists, and the
-- theorems hold of every list. Floats are a record of the operations that the program calls; the
-- theorems assume of them, where they say so, that integers up to 2^24 are exact or that the numbers
-- are ordered, as IEEE 754 has it. Loops are structural recursion over the lists that the source
-- iterates, and the decode loop recurs on the number of tokens that may still come, the bound of the
-- source's own loop; the heartbeat loop, which may go on for ever, is a function of the rounds that it goes
-- through. The GGUF reader alone has fuel, the length of the file and one more, which is enough since each
-- nested array takes bytes of it.
--
-- Not modelled. The gRPC service of the coordinator (node_control.rs), which the built program does not
-- contain and which does not fit its own messages; the files of the model registry; the set-up of sockets
-- and TLS; log lines and metrics, which change no state that the program reads; the sockets of link
-- measurements, HTTP requests and the user interfaces, which are input and output.
pub mod Base
pub mod HashMap
pub mod Float
pub mod Types
pub mod Directory
pub mod Executor
pub mod Topology
pub mod Probe
pub mod Agent
pub mod Planner
pub mod Scheduler
pub mod Coordinator
pub mod FineTuning
pub mod Pairing
pub mod Registry
pub mod Gguf
pub mod Transport
pub mod Runtime
