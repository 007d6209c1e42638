-- ===== src/Lib.antt =====
-- Verification of the Spectra Gnoland indexer: a program that copies the blocks of a Gnoland chain
-- from a node into a TimescaleDB database.
--
-- The parts, and how they work together. The orchestrator (indexer/orchestrator) cuts the chain
-- into chunks of heights, either a given range (`HistoricProcess`) or behind the node
-- (`LiveProcess`). For each chunk the query operator (indexer/query) fetches the blocks and
-- commits, one goroutine for each height, with the retry wrapper (indexer/retry) around a failing
-- call; the orchestrator joins the blocks with their transactions and gives all to the data
-- processor (indexer/data_processor) in two phases. The data processor resolves addresses to ids
-- through the address cache (indexer/address_cache), turns the messages into rows with the codecs
-- of the decoder (indexer/decoder, pkgs/schema), and inserts the rows.
--
-- The API (api/handlers) reads the tables through the queries of pkgs/database/timescaledb: a
-- list of transactions comes in pages, and a page carries the cursors of the pages beside it. A
-- middleware (api/ratelimit) counts the requests of each client. The tables are made once, from
-- the tags of the structs of pkgs/schema (indexer/db_init).
--
-- The files:
--   Common: shared names; `Outcome` for code that may panic, uint64 sums with the wrap-around
--     written out, Go maps and sets as lists, strconv.ParseUint and ParseInt.
--   Retry: `RetryWithContext` and `GenericRetryQuery` of indexer/retry/worker.go.
--   Swarm: one goroutine per slot of a slice, over an arbitrary order of the goroutines.
--   Query: indexer/query/operator.go.
--   AddressCache: indexer/address_cache/address.go, over a database whose calls may fail
--     (AddressCache/Database).
--   Rpc: the responses of the node, indexer/rpc_client/blocks.go, commit.go, transactions.go.
--   Orchestrator: indexer/orchestrator/operator.go: `collectTransactionsFromBlocks`, `processAll`
--     and `processChunk`; Orchestrator/Historic and Orchestrator/Live the two loops;
--     Orchestrator/State the orchestrator's fields (types.go).
--   Schema: the rows of pkgs/schema/hypertables.go and the address sets of pkgs/schema/table.go.
--   Decoder: indexer/decoder: Decoder/Decoding the decoding of a transaction (decoder.go),
--     Decoder/Registry the codecs of registry.go, Decoder/Product the rows and batches of
--     product.go; Decoder/Supported and DataProcessor/Unsupported messages with and without a
--     codec.
--   DataProcessor: indexer/data_processor/operator.go: blocks, validator addresses and signings;
--     DataProcessor/Messages hash ids and messages; DataProcessor/Transactions the
--     transactions, DataProcessor/Events their events (event.go).
--   RateLimit: the token bucket of indexer/rpc_client/rate_limit/rate_limit.go.
--   DbInit: indexer/db_init/tables.go: tables from the tags of structs; DbInit/Statements the SQL
--     texts and running them, DbInit/Versions the version of TimescaleDB and hypertables;
--     DbInit/Aggregates the statements of the continuous aggregates
--     (indexer/db_init/materialize.go), Schema/Aggregates their structs
--     (pkgs/schema/materialize.go) and the views that indexer/cli/setup.go makes of them,
--     DbInit/Grouping their groups.
--   Setup: indexer/cli/setup.go: the commands that make a database, its tables and its users,
--     with their flags (Setup/Flags, func.go); Setup/Script the statements that they run,
--     Setup/Creates that they run them.
--   MainOperator: indexer/main_operator/operator.go and indexer/config/loader.go: the
--     configuration, the defaults, and the running mode; MainOperator/Launches the historic mode
--     with its loop.
--   Schema/Tags, Schema/MessageTags: the tags of the structs of pkgs/schema;
--     Schema/SpecialTypes the types of pkgs/schema/types.go; Schema/Tables the tables of
--     pkgs/schema/table.go; Schema/Copy the rows of pkgs/schema/copyrow.go.
--   Timescale: pkgs/database/timescaledb: the cursors of queries_address.go; Timescale/Pages the
--     queries of a page there and in queries_tx.go, Timescale/Blocks and Timescale/Averages
--     those of query_block.go, Timescale/Accounts the other queries of the two first files,
--     Timescale/Types the rows of pkgs/database/types.go; Timescale/Answers what the database
--     answers to such a query. Timescale/Events the transactions with their events, native or
--     compressed (queries_tx.go), Timescale/ReadBack these beside what DataProcessor/Events
--     writes; Timescale/Inserts the inserts of insert.go, Timescale/Written and
--     Timescale/HashIds these beside the batches of Decoder/Product. Timescale/Views the queries
--     of the continuous aggregates (query_view.go), Timescale/Volumes and Api/Volumes the
--     volumes of them; Timescale/Pool the text of a connection (pool.go), Timescale/Quoted how
--     it is read.
--   Api: api/handlers: Api/Transactions, Api/Bodies and Api/Cursors the paged handlers of
--     transactions.go and address.go, Api/Messages and Api/Dispatch the messages of a transaction,
--     over the queries of query_msg.go (Timescale/Messages; Api/Given and Api/Stored the whole),
--     Api/Ranges the handlers that check a range, Api/Constants the values kept by in_memory.go.
--   ApiLimit: the middleware of api/ratelimit/ratelimit.go. ApiKeys: the keys that it asks for,
--     api/keystore/keystore.go, and their queries in pkgs/database/timescaledb/key_mgmt.go
--     (ApiKeys/Table the statements on their table, ApiKeys/Disabled the keys that are switched
--     off).
--   ContextHook: the signals, indexer/context_hook/hook.go.
--   EventAttributes: the types of the event attributes, pkgs/events_proto/parse.go;
--     EventAttributes/Texts which texts they keep.
--   Tests: runs on concrete data, and the theorems at concrete inputs.
--
-- State and operations. A method of a Go struct is a function of the same name in snake case that
-- takes the struct as a record. The state of the database and of the caches is a world that is
-- passed on. A log line, a pause of the orchestrator and a timeout are not modelled; the pauses
-- of the retry wrapper are. A time is a number. Goroutines that each write their own slot are a
-- list of indices in the order in which they take effect; a panic in one of them ends the
-- program. A log of level fatal, which ends the program as well, is written as a panic there, and
-- as `none` where the caches are loaded.
--
-- Bounds and fuel. Heights are uint64 and their sums wrap around at 2^64. The loop of
-- `HistoricProcess` takes fuel, one unit for each round and one for the last test; as every round
-- advances by at least one height, more fuel than there are heights is enough. `LiveProcess` runs
-- over the finite list of rounds that it has met so far. All other loops are structural.
--
-- A client that follows the pages may ask for so many pages; each page but the last holds at
-- least one row, so that one page more than there are rows is enough. FormatUint writes at most
-- twenty digits, which 2^64 has.
--
-- The database. A query of a page is a value (`Select`), and a database answers it with rows;
-- that it answers by the rows of one table, in order and within the limit, is a hypothesis
-- (`Answers`). The statements on the table of the API keys are applied to a list of rows. Texts
-- that the program takes apart are lists of codes. Base64, SHA-256, the parsing of addresses and
-- of floats, and the counters of Valkey are parameters, with their laws as hypotheses.
--
-- Not modelled: the client of the node and other HTTP exchanges, the text of queries (that of
-- the statements which make the database is modelled), the functions of amino, zstd, protobuf
-- and UTF-8 of other packages (they are parameters), the reading of files, of the environment
-- and of the command line, the routes and the wiring of the API server, the making of API keys,
-- the state dumps on disk, the generator of test data, the training of the dictionary.
mod Common
pub mod Retry
pub mod Swarm
pub mod Query
pub mod AddressCache
pub mod Rpc
pub mod Orchestrator
pub mod Schema
pub mod Decoder
pub mod DataProcessor
pub mod RateLimit
pub mod DbInit
pub mod Setup
pub mod MainOperator
pub mod Timescale
pub mod Api
pub mod ApiLimit
pub mod EventAttributes
pub mod ApiKeys
pub mod ContextHook
mod Tests
