-- ===== src/Lib.antt =====
-- anito: a daemon that runs services on one machine behind stable ports.
--
-- The daemon keeps a registry of services in a file (internal/registry), supervises one process per
-- binary service (internal/process) and puts a proxy with a stable port before it (internal/proxy).
-- The service layer (internal/service) composes the three: a deployment writes a draft to the registry,
-- starts a candidate process, swaps the proxy, promotes the candidate and drains the old process, or
-- restores the old entry and the old process when a step fails.
--
-- The files:
--   Prelude    Boolean tests, the conditional, lists, Go's order on strings, equality of keys as an
--              instance.
--   Assoc      Go maps as lists of keys and values: lookup, insert, delete, a write to every value.
--   Registry   internal/registry/registry.go. Types has Service and its parts; Ports has PickPort and
--              NormalizePorts; Store has Registry, load and save; Edits has the change that each method
--              makes to one entry; Methods has the exported methods (Register is register, UpdateStatus
--              is update_status, and so on); Calls has them as one step relation with the file's answer
--              to each save. The other files of the folder are proofs.
--   Process    internal/process/process.go. Types has runningProc and Manager; Manager has the methods;
--              Exit has the goroutine that Start leaves behind, from the return of cmd.Wait on; Events
--              has both as events that come in any order; Tree has processTreePIDs and
--              VerifyPortsOwnedByProcessTree. EnvFile is loadEnvFile from the text of the
--              file on.
--   Proxy      internal/proxy/proxy.go. Types has entry, Manager and the routing generations; Keys has
--              entryKey and strings.HasPrefix; Listeners has RegisterPortsWithBind from the point where
--              the address is valid; Address has the check of the address; Routes has SwapPorts,
--              SwapStatic, UnswapPorts and RemovePorts.
--   Service    internal/service. Names has ValidateServiceName and Crash has handleCrash up to its call
--              of Restart, both of service.go; Recover adds that Restart, after the exit
--              that calls it; Startup has the tracker and the gate of startup_state.go.
--              World has the daemon's state and what one operation meets; Undo has restoreFailedDeploy
--              and restorePrevious; Replace has restartLocked, and Deploy of a binary service from its
--              registration on, as one sequence of the steps of the three parts; Ports has allocatePorts;
--              Request has DeployRequest and its checks; Deploy has Deploy, Restart, Stop and Remove;
--              Rollback has Rollback and ReservePorts; Archive has archive.go;
--              Metrics has isOrphaned, Services, Status and Metrics.
--   Sessions   internal/sessions/sessions.go. Store has the store, its file and its methods.
--   Auth       internal/auth/auth.go. Token has the environment, the token's file and the check of a
--              request.
--   Text       strings.TrimSpace and the like.
--
-- How the state corresponds. A method takes the state and returns the new state with what it returns;
-- each runs whole under its mutex, so an interleaving is a sequence of methods. A Go map is a list of
-- keys and values; a nil map and an empty one are both the empty list. A port that the source takes from
-- the first key in iteration order is taken from the list's order, the same at each reading, where Go may
-- choose another order each time; that matters only for a map with an empty port name. Copies made
-- for the caller (cloneService, copyPorts) are the values themselves. A time is a number of nanoseconds, 0 for the zero time; the methods take the time that time.Now gives.
-- The processes' objects are a heap of addresses, since the table, a detached process and a waiting
-- goroutine write to one and the same object.
--
-- What is a parameter: encoding/json (Codec, with the law that decoding what was encoded gives it
-- back), the file system's answer to a save (Io), and what the operating system answers when a process
-- is started (Launch) and when a port is listened on (a Boolean for each port name). Where a
-- method waits for the network or for a process, what it sees in the end is a field of World or Host.
-- The walk of the process tree has fuel, one for each round; a round more than there are processes is
-- enough (Process/Owned). Every other loop is a recursion on a list or on a count.
--
-- What is not modelled: log lines, the URLs that Address builds, the command line and the environment
-- of a process, signals, the rest of the service layer (watchers, builds, logs, receipts,
-- Teardown, the restore at startup), and the other packages (server, mcp, setup, doctor, issues,
-- receipt, watcher, config, client, cmd).
pub mod Prelude
pub mod Assoc
pub mod Text
pub mod Registry
pub mod Process
pub mod Proxy
pub mod Service
pub mod Sessions
pub mod Auth
