-- ===== src/Lib.antt =====
-- The verification library of sing-box-inbound-bench, a benchmark of the inbound modes of sing-box.
--
-- The program runs a matrix of jobs. A job is a transaction on the host (internal/runner) that
-- drives one subject (internal/subject), proves that the traffic of a warmup took the intercepted
-- path, and only then measures a workload (internal/workload).
--
-- Files, and what they model:
--   Base            shared names, lists over native numbers, Boolean tests, machine integers
--   Wire            the big-endian integers, the checksum and the byte stream of the workloads: what
--                   encoding/binary, hash/crc32 and io.ReadFull of Go's standard library do
--   Protocol/Trace  PathProof, PhaseResult and ExecutionTrace of internal/protocol/protocol.go
--   Runner          Execute, runPhase, observePhase and collectArtifacts of
--                   internal/runner/lifecycle.go, over the interface Subject of
--                   internal/subject/subject.go; Runner/Transaction/Spec is their specification
--   Workers         perWorkerRequests of internal/workload/tcp/tcp.go and internal/workload/udp/udp.go
--   Tcp             the frame header of internal/workload/tcp/tcp.go: writeHeader and readHeader
--   Tcp/Upload      serveUpload, uploadAckInterval and writeUploadAcknowledgement of that file
--   Tcp/Upload/Client  runUpload and readUploadAcknowledgement of that file
--   Tcp/Echo        runEcho of that file, behind its dial
--   Tcp/Short       runShort and isTransportError of that file
--   Tcp/Serve       serveConnection of that file
--   Tcp/Download    serveDownload, runDownload and fillPayload of that file
--   Protocol/Endpoint  EncodeEndpoint and DecodeEndpoint of internal/protocol/endpoint.go
--   Udp             build and parse of internal/workload/udp/udp.go
--   Udp/Server      the answer of Serve of that file to a datagram
--   Udp/Echo        runEchoFlow of that file
--   Udp/Schedule    packetCount and packetOffset of that file
--   Udp/Receive     receivePPSFlow of that file
--   Netdev          Stats and Delta of internal/netdev/stats.go
--   Protocol/Config    Config, ApplyDefaults and Validate of internal/protocol/protocol.go
--   Protocol/Matrix    MatrixConfig and NormalizeAndValidateMatrix of internal/protocol/matrix.go
--   Suite           Options, applyPresetDefaults and selectedSubjects of internal/suite/matrix.go
--   Suite/Templates the function workloads of that file
--   Suite/Build     buildConfig and Generate of that file
--   Suite/Generated the cases that Generate is to make of its subjects and workloads
--   Command/Warmup  warmupWorkload and makeWorkerRequest of cmd/inbound-bench/main.go, and what
--                   ReadRequest of internal/worker/worker.go checks
--   Command/Jobs    buildMatrixState and matrixJobConfig of cmd/inbound-bench/main.go, and the
--                   redaction of runMatrix; Command/Jobs/Spec says what the schedule of a matrix is
--   Command/Loop    the loop of runMatrix of that file, with its recovery
--   Command/Recovery  runMatrixRecoveryProbe and waitContext of that file
--   Subject/Evidence  ValidateSocketPathEvidence of internal/subject/path.go
--   Subject/Processes FindProcesses of internal/subject/process.go, over what /proc holds
--   Subject/Raw     the raw subject, internal/subject/raw/raw.go
--   Subject/Diagnostics  ValidateRuntimeDiagnostics of internal/subject/singbox/diagnostics.go
--   Subject/Managed ProvePath of internal/subject/singbox/subject.go; Subject/Managed/Spec says what
--                   each kind of subject has to show
--   Android         VerifySnapshot, snapshotOwnership and serviceState of
--                   internal/platform/android/orchestrator.go
--   Text            what the program uses of Go's strings, strconv and fmt
--   Netfilter       Config, Manager and New of internal/netfilter/manager.go
--   Netfilter/Rules     Install, Cleanup, VerifyRestore and mutate of that file
--   Netfilter/Snapshot  Snapshot of that file
--   Netfilter/Counters  Observe, Prove and parseCounters of that file
--
-- State and errors: a subject acts on a world that is a parameter of the runner's model, so the
-- theorems hold of any subject. A phase is a call that returns a value, an error and a new world. The
-- variables of a running Execute are the record Run, early returns are a monad, and the deferred
-- function takes what the body returned. A connection of the TCP model is the stream that it will
-- deliver, with the error at its end, the bytes that it has sent, and the writes that still succeed.
-- The netfilter manager acts through a runner of commands, an argument of its operations, on a host
-- that is a parameter too. The redaction of a matrix writes to a heap of configurations, to which the
-- matrix and its copy hold addresses.
--
-- Bounds and fuel: numbers are natural numbers, and the integers of the frames keep their widths. The
-- ints of a configuration are integers, and sums of them wrap around at 64 bits. The
-- receiver's loop of an upload or a download takes at least a header's bytes a round, so one more round
-- than there are bytes is enough. The sender's loop has no bound of its own without a number of blocks,
-- so its fuel is an argument, and its theorem asks for more fuel than there are blocks. The loops of the
-- UDP flows run over the exchanges and receptions that the network gives, as long as it gives any. A round
-- of the echo mode reads a header's bytes, on either side, so one more round than there are bytes is
-- enough for runEcho and for serveConnection. A worker of the short mode need not end, so its fuel is an
-- argument, and its theorem gives the fuel that is enough where it does.
--
-- A configuration is validated to a list of all of its errors, in order, which is empty where Go returns
-- no error. What net, net/netip and path make of a text is the parameter NetText, a record of functions.
--
-- Not modelled: the idle mode and the goroutines of the TCP workload, and the sending loop of the PPS mode;
-- the report, the metrics, and the conversions of the results of a repetition; the commands of the Android
-- platform; the process, the configuration file and the observations of the sing-box subject, which act on
-- the operating system; deadlines and partial writes of the workloads, and the dial of a connection; files,
-- flags and JSON.
pub mod Android
pub mod Base
pub mod Command
pub mod Protocol
pub mod Subject
pub mod Runner
pub mod Suite
pub mod Wire
pub mod Workers
pub mod Tcp
pub mod Text
pub mod Udp
pub mod Netdev
pub mod Netfilter
