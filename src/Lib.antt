-- ===== src/Lib.antt =====
-- ceph_exporter: a Prometheus exporter for the Ceph storage system.
--
-- The program asks a Ceph cluster, over librados or by command line tools, for its state, and sends
-- what it reads as Prometheus metrics. `Exporter` (ceph/exporter.go) is registered with Prometheus;
-- at each scrape it renews the version of the cluster and the set of its collectors, and runs every
-- collector in a goroutine of its own. A collector runs commands through `Conn` (ceph/conn.go),
-- decodes their JSON replies, and sends constant metrics or gauges that it keeps between scrapes.
--
-- What each file models:
--   Base           maps, lists, texts, results, integers: the helpers that all share
--   Version        ceph/version.go: the record, `IsAtLeast`, `String`, `ParseCephVersion`; Version/Pattern
--                  is the regular expression, Version/Decimal is strconv.Atoi
--   Float          float64, by the operations that the code uses (a parameter)
--   Json           encoding/json, into the types of the program
--   Prometheus     descriptors, metrics, and vectors of gauges (an interface with its laws)
--   Conn           ceph/conn.go
--   Exporter       ceph/exporter.go: `NewExporter`, `initCollectors`, `setCephVersion`, `setRbdMirror`,
--                  `Describe`, `Collect`; Exporter/Versions is `ParseCephVersions`,
--                  Exporter/Interleaving the channel that the goroutines share, Exporter/Reachable the
--                  calls in the life of an exporter, Exporter/Isolation what it makes of each collector
--   Crashes        ceph/crashes.go
--   ClusterUsage   ceph/cluster_usage.go
--   RbdMirror      ceph/rbd_mirror_status.go
--   PoolInfo       ceph/pool.go; PoolInfo/Rules is `getCrushRuleToRootMappings`
--   PoolUsage      ceph/pool_usage.go
--   Rgw            ceph/rgw.go
--   Health         ceph/health.go: Health/Collector is `collect`; Health/Messages are its regular
--                  expressions, Health/KnownChecks the table of checks, Health/Checks the status, the
--                  summaries and the checks, Health/States the placement groups, Health/Reply
--                  `cephHealthStats`, Health/Totals what follows; Health/Io is
--                  `collectRecoveryClientIO`, with the patterns of the rates in Health/Io/Patterns;
--                  Health/Scrape is `Describe` and `Collect`
--   Mds            ceph/mds.go; Mds/Operations is `extractOpFromDescription`
--   Monitors       ceph/monitors.go; Monitors/Commands are the commands and their replies,
--                  Monitors/Tags is `versionRegexp`
--   Osd            ceph/osd.go: Osd/Replies are the commands and their replies, Osd/Decoders how
--                  they are read, Osd/Labels is `buildOSDLabels`, Osd/Names the names and labels of
--                  OSDs, Osd/Writes the gauges and what is written to them, Osd/Usage is `collectOSDDF`, Osd/Gather
--                  `collectOSDMetadata`, `collectOSDPerf` and `collectOSDDump`, Osd/Sent
--                  `collectOSDTreeDown` and the metrics of `collectOSDScrubState`, whose cache is
--                  Osd/Scrub, Osd/Inactive a round of `oldestInactivePGLoop`, and Osd/Collector
--                  `Describe`, `Collect` and the loop
--   Collectors     the collectors of exporter.go as NewExporter makes them, which fill the interface that
--                  Exporter takes; Collectors/Background is what the goroutines that never end
--                  do between the calls; the modules below it, and those called WellFormed, are on the
--                  metrics and the vectors of them all
--   Descriptors    what the collectors of an exporter describe together
--   Rados          rados/rados.go, over the library go-ceph (an interface)
--   Main           config.go and main.go: the clusters, the exporters that are registered, the listener
--   Scenarios      concrete inputs at which the theorems are applied
-- The modules called Descs hold the descriptors that the constructors of the collectors make.
--
-- How it is modelled. A method is a function of its receiver's state, which returns the new state
-- and what is sent. A call that can fail is an Option, since errors are only logged, or a Result
-- where there are several. A Go map is an association list with one entry for each key; its order is
-- the order in which `range` visits it, which Go leaves open; the order of the checks of a status, on
-- which the gauges depend, is an argument of its own, any permutation of the reply. The replies of the cluster are given
-- by the `Conn` of the call. Counts are natural numbers; an `int` is an integer whose range is
-- written out where a text is parsed. Times are numbers of nanoseconds.
--
-- Fuel. `findParent` recurs over the tree without a bound. Its model has fuel of one more than the
-- number of nodes, which is enough where no node is its own ancestor; a climb without end is `none`,
-- and so is a Collect that panics: the program ends with either.
--
-- Goroutines. What runs at the same time is a list of sequences of steps, one for each goroutine,
-- and `Received` says which sequences they can make together. The goroutines of the OSDs write to
-- gauges; a run of one is the list of its writes and how it ends. The last write to a series is
-- what is shown. A goroutine that never ends goes through rounds, each of which is one step in the life
-- of its exporter.
--
-- Parameters. The operations on float64, the vectors of the Prometheus client and its registry, the
-- JSON containers of gabs, time.Parse, the clock, the output of the command line tools, the plain
-- text of `ceph status`, bytes.Replace of "-nan" in the reply to `osd df` (on a buffer, which is the
-- value that its bytes hold), the library go-ceph, the files of the machine and YAML.
--
-- Not modelled. The environment variables, which the library envflag reads, and the HTTP and TLS
-- servers (I/O); the timers of the background loops; the constant label of the cluster; logging.
pub mod Base
pub mod Version
pub mod Float
pub mod Prometheus
pub mod Rados
pub mod Main
pub mod Collectors
pub mod Descriptors
pub mod Json
pub mod Conn
pub mod Crashes
pub mod ClusterUsage
pub mod RbdMirror
pub mod PoolInfo
pub mod Osd
pub mod Exporter
pub mod PoolUsage
pub mod Rgw
pub mod Scenarios
pub mod Health
pub mod Mds
pub mod Monitors
