-- ===== src/Lib.antt =====
-- arex polls Arista switches over eAPI and serves what they answer as Prometheus metrics. This
-- library models its configuration, its client, its collector, its health probes, and what a
-- scrape is answered with, down to the samples.
--
-- The parts, and how they interact:
--   * Config (config/): the types of the configuration file and their methods (Config.Types), its
--     defaults and validation (Config.Validate, with password files in Config.Files and log levels
--     in Config.LogLevel), and the collect blocks: EffectiveCollect, resolveInterval,
--     validateCollect (Config.Modules). NewStore asks it for the command groups of a switch and
--     their intervals.
--   * Eapi (internal/eapi/): the structs that command outputs are decoded into (Eapi.Types), the
--     errors of a request (Eapi.Error, Eapi.Transport), the request counters (Eapi.Stats), the
--     client that makes a request and repeats it after a rotated secret (Eapi.Client), how a
--     certificate of a switch is verified (Eapi.Tls), and the record that is logged of a request at
--     debug (Eapi.Debug). The password of a client is a Credential (Secret, internal/secret/).
--   * Collector (internal/collector/): the command table and commandsFor (Collector.Commands),
--     the state of a switch and NewStore (Collector.Data), due and markDue (Collector.Schedule),
--     the steps of a poll (Collector.Poll) and collect, setError, Collect and CollectDue composed
--     of them (Collector.Collect), PollLoop (Collector.Loop), PollOffset (Collector.Stagger), and
--     the collapsing of repeated failures (Collector.Repeat). What a poll stages and keeps of the
--     outputs is Collector.Output.
--   * Health (internal/health/): Live, Ready and Report over the states that the collector keeps.
--   * Metrics (internal/metrics/): TargetIndex (Metrics.Targets) and NewHandler's choice of what
--     answers a scrape request (Metrics.Requests), over the store and the index; the families of
--     catalogue.go (Metrics.Catalogue); set, setBool and setTime (Metrics.Emit); what the collector
--     sends for a switch and for the store, from the filters and the limits on age
--     (Metrics.Render.Switch) to the samples of each command's output (the other files of
--     Metrics.Render, with the methods of Eapi.Methods); and what a request is served in the end
--     (Metrics.Serve).
--   * BuildInfo (internal/buildinfo/): which build is running, which Metrics.Serve exposes.
--   * Listen (internal/listen/): who may scrape, against a password that rotates (Listen.Auth),
--     and the server's certificate, its renewal and the listener's configuration
--     (Listen.Certificate).
--   * Startup (main.go): the level that arex logs at, from its flags and configuration; and what
--     is built of the configuration: the client of a switch (client.go) and the authentication of
--     scrapes (Startup.Wiring).
--
-- How the model reads the program: a Time is a number of nanoseconds from the zero Time, and a
-- Duration an int64 of nanoseconds whose arithmetic wraps or saturates as Go's does (GoTime). A Go
-- map is an association list without order, a nil map or slice that the code tells from an empty
-- one is `none`. A method on *SwitchData returns the new state. Outside it stands a world `W`: the
-- Runner (the switch behind the client, and the clock) is a record of functions on it, a parameter
-- of every poll; so are the decoder (encoding/json, which may fail having written a part) and the
-- type of float64. A rendering reads a Host: the conversions and the few operations of float64,
-- and whether prometheus.NewConstMetric gives a metric or an error, which it does by the
-- descriptor and the number of the label values; the channel of Collect is the list of what is
-- sent. Under the client stand net/http, the clock and os.ReadFile, a record of functions (Http);
-- what a post gives may also be that its request could not be built, and was not sent. A poll
-- returns the state, the world and the lines that it logs. Validation reads a FileSystem, also a
-- parameter, and its errors and warnings are data that stand for their texts. The signals that
-- PollLoop selects are a list, and the number that PollOffset draws is an argument.
--
-- Every loop of the model is structural recursion, over the commands of a poll, the switches of
-- the store, the signals of the loop or the characters of a text. Only the decimal text of a
-- number runs on fuel, the number itself and one more, which is more than it has digits. Where a
-- theorem speaks of a time difference, its hypotheses say that it fits an int64 of nanoseconds
-- (292 years), unless the theorem also holds of a difference that is saturated.
--
-- Not modelled: the locks of SwitchData (its poller is the only writer, and each step of a poll
-- that holds the lock is one definition), the HTTP servers, crypto/tls, the flags and signals of
-- main.go, its checkConfig and the schedule that it logs, the decoding of JSON and YAML, the
-- client library's text format and its Go and process collectors, and the logging handlers.
pub mod Prelude
pub mod GoTime
pub mod Eapi
pub mod Secret
pub mod Config
pub mod Collector
pub mod Health
pub mod Metrics
pub mod Listen
pub mod BuildInfo
pub mod Startup
