-- ===== src/Lib.antt =====
-- A model of a-kerno, the session supervisor of ADE: it starts the session's window manager, the
-- daemons of daemons.ini and the user programs of the autostart directories, watches them, and
-- answers commands on a Unix socket in a text and in a binary protocol.
--
-- Parts, files and how they correspond:
--   Common             what the parts share: bytes (a Go string or byte slice is a list of numbers),
--                      Go maps as association lists in the order of insertion (Common/Assoc),
--                      `sort.Slice` as an insertion sort (Common/Sorting), `int64` and its 64-bit
--                      pattern (Common/Int), a value or an error (Common/Outcome).
--   Text               the functions of Go's strings package that the code uses, on ASCII text; Utf8 has the
--                      runes of a text.
--   Config             internal/config/config.go: Init is `init` on the environment and the user.
--   IniFile            internal/iniload/iniload.go on a file that the INI library has parsed: its sections
--                      with their keys and the keys of their parents.
--   KernoCfg           internal/kernocfg/config.go: Load and parseComposer.
--   Process            the polls of a wait for an exit and the signals sent, for all supervisors.
--   BinParser          internal/binparser/parser.go and writer.go: ReadCommand is read_command on the
--                      bytes of the stream, WriteCommand is write_command, and so on for the frames,
--                      the attributes and the values. A slice out of bounds is an error `panic`.
--   Cmdlist            parser/parser.go: NewParser, ParseCommand and parseValue on complete lines, and the
--                      formats of replies.
--   LogDup             internal/logdup/logdup.go: scanLines on all bytes of a pipe; Pipes has Duplicate and Close.
--   LogBuffer          internal/daemon/logbuffer.go: the record LogBuffer and its operations.
--   Daemon             internal/daemon: Types has daemon.go and the types of config.go, Backoff the
--                      policies and delays of restart.go, Lifecycle the operations on one daemon
--                      (Start, Stop, cleanupDaemon, monitorDaemon), Manager those of DaemonManager on
--                      its map (NewDaemonManager, Start, Stop, StartAll, groupByOrder, StopAll),
--                      Config is LoadConfig of config.go, Reload and Watch are reloadConfig and the loop
--                      of WatchConfig of manager.go.
--   Feature            internal/feature/registry.go: Register, SetReady, Get, List, ExportEnv.
--   Program            internal/program: Types has program.go, Resolve the dependency order of
--                      manager.go, Lifecycle the operations on one program (StartProgram, StopProgram,
--                      monitorProgram and RunHealthCheck of health.go), Manager those of
--                      ProgramManager on its map (StartPhase, StopPhase, StopAll and the rest),
--                      Config and Config/Desktop the parsers of .ini and .desktop files of config.go,
--                      Autostart the scan of the two directories (scanDir, LoadProgramConfigs).
--   SessionWm          internal/sessionwm: Config has LoadConfig and ParseSpec of config.go, Lifecycle
--                      the operations of manager.go.
--   Server             internal/server: Replies has the state of server.go and the replies as data,
--                      Handlers what the commands of handlers.go do, Dispatch the two dispatchers and
--                      handleBinConnection on the bytes that a client sends, Connection the choice of
--                      the protocol and the text mode of handleConnection; Connection/Turns has
--                      handleConnection turn by turn, and Serving is Start, acceptLoop and Stop with
--                      such handlers as steps of goroutines; Format has response.go and the texts of
--                      the replies in both protocols.
--   Client             client/kerno/client.go: what each method sends, and what it returns for the bytes
--                      of a reply; Opening has NewClient, NewBinaryClient and the choice of protocol.
--   Orchestrator       internal/orchestrator/orchestrator.go: Run and Shutdown.
--   Main               cmd/a-kerno/main.go: run, which loads the files with the parts above, assembles the
--                      session, starts it and shuts it down.
--
-- How state and the system are modelled: a struct is a record with the fields of the source, a
-- mutating method a function from the old record to the new one with its error. Each operation takes
-- what the operating system answers (does a process start, with which id, is a group alive at each
-- poll, is the context done, does a socket accept, what time it is) as an argument, so that the
-- theorems hold for every answer. A goroutine is a function of its own, split where it releases a
-- lock or waits; the theorems on the monitors compose such functions in the orders that may occur.
-- The goroutines of one start group touch different entries and run one after the other.
--
-- Bounds and fuel: a `uint16`, a `uint32` and an `int64` wrap as written, at 2 ^ 16, 2 ^ 32 and
-- 2 ^ 64. ReadCommand runs on one round more than the stream has bytes, which is enough since a frame
-- takes five; Kahn's algorithm on as many rounds as there are programs, each of which takes one out.
-- ReadAllCommands runs on one round more than there are lines, since a command takes a line.
-- The conversion of a `float64` from 2 ^ 63 on, which Go leaves to the platform, is a parameter of
-- the restart delay.
--
-- Code of other packages is a parameter or data: the INI library's parse of a file (`ini`, or an
-- IniFile), time.ParseDuration (`go_duration`), what reading a file or a directory gives.
--
-- A text connection is run for a list of reads, with the free space of the buffer at each: what holds
-- for every list holds however long the connection is read.
--
-- In Server/Serving a list of events is one order in which the accept loop, the handlers and Stop run;
-- each command of a binary connection, and each read of a text connection, is one event.
--
-- Texts of other packages (quoting, durations, the errors of the system) are a record of functions.
--
-- A process that was started under the context of an errgroup is killed when the group has been waited for, as
-- os/exec documents it: the field `killed` of the managers holds the process ids. A panic ends the process: a
-- connection then writes `crash`, and a server in Server/Serving takes no further step.
--
-- Not modelled: locks, but for the wait of StopProgram for a lock that it holds (Server/Connection/Turns); log
-- lines; the environment of a child process; the monitors of the daemons while the server runs; and the text of
-- the templates that are written for missing files.
pub mod Common
pub mod Process
pub mod Text
pub mod Config
pub mod IniFile
pub mod KernoCfg
pub mod BinParser
pub mod LogBuffer
pub mod LogDup
pub mod Daemon
pub mod Feature
pub mod Cmdlist
pub mod Program
pub mod SessionWm
pub mod Server
pub mod Client
pub mod Orchestrator
pub mod Main
