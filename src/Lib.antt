-- ===== src/Lib.antt =====
-- A verification library of mquery, an HTTP API server for corpora indexed by Manatee-open. The
-- server publishes queries to a queue in Redis, workers take them, run them by the bindings to
-- Manatee, and publish the results, which the server merges, bins, cuts and sends as JSON. An MCP
-- server passes the calls of tools on to that API.
--
-- The parts and their files:
--
-- - Rdb/Protocol: the exchange of queries and results (rdb/client.go: PublishQuery, DequeueQuery,
--   SomeoneListens, PublishResult; worker/worker.go: tryNextQuery) as a relation between states of
--   Redis, of the goroutines that wait, and of the workers. A step is one operation; any process may
--   take the next one. Rdb/Service is what the exchange promises to its callers, calls and their
--   replies without Redis, and Rdb/Protocol/Refinement relates the two. Rdb/Protocol/Turns is the
--   loop of a worker (Start), which ends with a query before it takes the next one, among the steps of
--   the other processes. Rdb/Adapter: NewAdapter and the replies
--   of Redis. Rdb/Query: the queries.
-- - Results: FreqDistrib of rdb/results/results.go with FindItem, MergeWith and Cut. Results/Binning:
--   BinAsDataSeries and rdb/results/tfbinning.go. Results/Types: the other results. Results/Json:
--   their MarshalJSON methods, as keys and values.
-- - Worker/FreqResult: CompileFreqResult of worker/common.go. Worker/NormsCache: worker/normscache.go.
--   Worker/Actions, Worker/Lines, Worker/TextTypes: the actions of worker/actions.go, over the record
--   Manatee of what they call. Worker/Run: runQueryProtected and tryNextQuery of worker/worker.go; the
--   state is the cache and the results that were sent.
-- - Mango: the Go side of the bindings, mango/mango.go and mango/vbridge.go. Mango/Bindings makes the
--   functions of the record Manatee from those of a library of C, and Mango/Multiword is
--   normalizeMultiword.
-- - Handlers: the actions of corpus/handlers. Handlers/Request is what an action reads of a request and
--   what it does: the queries it publishes, its writes, and whether it panics. Handlers/QueryProps is
--   common.go with corpus/query.go; Handlers/Exchange is a query with its answer. On these stand
--   Handlers/Conc (conc.go), CollsExtended (collswithex.go), Collocations (colls.go), Frequencies
--   (freqs.go, ttypes.go, ttnorms.go, ttvalues.go), Chunked (ttypes2.go, ttoverview.go), Context
--   (context.go), WordForms (wforms.go), Audio (audio.go), SplitActions (edit.go) and Info (info.go).
--   Handlers/Parallel: FreqDistribParallel of freqs.go, after the corpus and the query are known, with
--   its goroutines and the counter of its wait group.
--   Handlers/Stream and Handlers/StreamActions: the streams of ttchunked.go, whose goroutines share the
--   merged result (Results/Steps is a merge in single steps). Handlers/YearRange: its
--   filterByYearRange.
-- - Corpora: Corpora/Setup is MQCorpusSetup and Resources.get of corpus/corpconf.go, Corpora/Lookup
--   is GetCorp of corpus/conf.go, Corpora/Files the other functions of the two, Corpora/Autoconf is
--   corpus/autoconf.go, Corpora/Info is corpus/infoload with OpenSplitCorpus of corpus/common.go, and
--   Corpora/Markdown is corpus/transform/markdown.go.
-- - Server: Server/Routes is the routing of cmd/mquery/apiserver.go with the middleware before each
--   handler. Server/Auth is AuthRequired and Server/Cors the other middleware of
--   cmd/mquery/mquery.go. Server/Config and Server/Locales are cnf/conf.go. Server/Translate is
--   proxied/translator.go, Server/Monitoring is monitoring/tswriter.go.
-- - Mcp: mcp/server.go, Mcp/Tools the tools of mcp/tools.go, Mcp/Env headersFromEnv of
--   cmd/mqmcp/mqmcp.go.
-- - Edit: SplitCorpus of corpus/edit/edit.go and the files that it writes.
-- - Errors: merror/errors.go, IsUserError of rdb/general.go and wrapError of worker/common.go.
-- - Base: shared names and lemmas. Tests: the same definitions on concrete data.
--
-- Numbers: an int64 whose sums may wrap is its bit pattern below 2 ^ 64 (Base/Word); a number of a
-- request that is only compared is signed (Base/Int); a length is a natural number. Floating-point
-- formats are a record of operations without laws (Base/Float), so what is shown holds for any
-- rounding. `slices.SortFunc` and `sort.Slice` are a record that promises a permutation, in order if
-- the comparison is one (Base/Sort). A package outside the repository is a parameter: `time`, `net`,
-- the clients of HTTP, the matching of routes by gin, the parsers of concordance lines and of
-- registry files, the methods of mquery-common, gob, Redis, and the C functions of Manatee.
--
-- Every loop is structural recursion, over a list or over a number of rounds that is computed before
-- the loop, so there is no fuel. A panic is a value of the result type.
--
-- Not modelled: starting and stopping of servers, workers and goroutines, the registration of types
-- for gob, the subscription to Redis, the reading and parsing of configuration files, the connection
-- to the time series database, the page with information on the server, and the metadata of the MCP
-- tools other than their arguments. These are calls of libraries, one after the other. The texts of
-- the errors of most HTTP actions are left out; their statuses are kept.
pub mod Base
pub mod Corpora
pub mod Edit
pub mod Errors
pub mod Handlers
pub mod Mango
pub mod Mcp
pub mod Rdb
pub mod Results
pub mod Server
pub mod Tests
pub mod Worker
