-- ===== src/Lib.antt =====
-- Balloon World, the online part of a game server for Super Mario Odyssey: players place balloons,
-- other players search for them, download them and so find them. The server is the DataStore
-- protocol (datastore.go), which keeps the records of balloons, and an object host (objectstore.go),
-- which keeps the uploaded bytes and hands them out against tokens. A login server (main.go, gates.go)
-- decides who may play, a dashboard (dashboard.go) shows what goes on, and pictures of players are
-- scaled and served (avatar.go).
--
-- How the parts interact. A request of the protocol reaches `data_store_handler`, which picks a
-- handler by the method number. PreparePostObject stores an incomplete record and issues an upload
-- token; the object host takes the upload; CompletePostObject makes the record visible.
-- PostMetaBinary stores a complete record at once and deletes an older one. PrepareGetObject issues
-- a download token; the download marks the balloon as found by the player, and SearchBalloon leaves
-- it out until the program starts anew. A flusher writes the records to a file, which is read at the
-- start. Each request on the secure server also moves the counters of the dashboard and the presence
-- (`on_rmc`). A login is decided by `resolve_user`, from the user name, a signed token and
-- the answers of the account server.
--
-- Which file models what:
--   Nex          what the server uses of the package nextendo-nex: a parameter of the model
--   Balloon      the structs and the global variables (datastore.go, objectstore.go, dashboard.go)
--   Wire         structure headers, permissions, the frame of a handler (datastore.go)
--   Ratings      ratings by slot and the persistence slot (datastore.go)
--   Objects      objectstore.go, and markBalloonFound of datastore.go
--   Metas        dsGetMeta, dsGetMetas
--   Posts        dsPreparePostObject, dsPostMetaBinary, dsDeletePreviousBalloon,
--                dsCompletePostObject, dsPrepareGetObject, dsDeleteObject
--   Rates        dsRateObject, dsGetRating, dsRateObjects
--   Buffers      the requests on buffer queues
--   Names        dispName of dashboard.go
--   Search       what dsGetPersistenceInfo, dsSearchObject and dsSearchBalloon choose,
--                splitIntoSets; Search/Answers has the handlers
--   Infos        dsFetchMyInfos, achievementPayload
--   Persist      dsLoad, dsFlusher and the state at the start
--   DataStore    DataStoreHandler
--   Presence     presence.go: the players seen in the last minute, and a round of the reporter
--   Gates        gates.go, from the answers of the account server on
--   Strings      what main.go calls of strings, strconv, encoding/base64 and hmac.Equal
--   Login        resolveUser, nextendoPIDFromToken and anonymousPID of main.go; Login/Secret has
--                the settings from the environment and loadNextendoSecret
--   Dashboard    noteRMC and rmcName of dashboard.go; Dashboard/Stats has buildStats,
--                Dashboard/Http the endpoints, Dashboard/OnRmc the hook of main.go
--   Avatar       avatar.go: the handler of the pictures, its cache, scaleInto
--   Utility      utility.go: the settings of Balloon World and their handler
--   Lifetime     an abstract view of the store: the life of an id, which the events follow
--   Invariant    what holds of the global variables before and after each operation
--   Machine      requests, transfers, rounds of the flusher and restarts as a sequence of events;
--                Machine/Answers has the layout of the answers that hand out a token
--   Prelude      lists, association lists, sorting and texts that the parts share
--   Tests        a concrete instance of Nex, a small world and runs of the theorems in it
-- The other children of a module prove what holds of its operations. A function of the code keeps
-- its name in snake case; `ds_x` parses a request and hands the parameters to `x`, where the part
-- after the parse is a function of its own.
--
-- State. A handler takes the `Server` and returns it beside the message. A map of the code is an
-- association list. The order in which a loop over the records meets them is a parameter, `visit` of
-- `Env`, about which the theorems that need it assume `Visits`: each record is met once. Likewise the
-- clock, the random bytes and the names from the account server come with `Env`; a request reads the
-- clock once.
--
-- Integers. A signed integer is its bit pattern. Sums wrap around at their width (`u64_mod`,
-- `u32_mod`), and so does the counter of ids; the invariant is stated for runs in which the counter
-- has room for one more id. Decimal texts are made on fuel, one more than the number, and a number
-- has at most as many digits as that. White space is trimmed on fuel, the length of the text, of
-- which each round takes a byte at least. Durations in seconds are cut towards 0.
--
-- Parameters beside Nex: the hashes SHA-256 and HMAC, the environment and the files at the start, the
-- token that nextendo-nex finds in the extra data of a login, the answers of the account server and
-- of the picture server, the JPEG encoder, the connections of the secure server and the kicks.
--
-- Not modelled: mutexes (a request, a transfer or a report of statistics is one step), log lines, the
-- JSON texts (the file holds the list of records itself, so that what JSON does to a text that is not
-- valid UTF-8 is left out) and HTTP requests, the listeners and the registration of handlers in main (main.go), and the
-- unit tests.
-- sort.Slice is an insertion sort: one of the results that an unstable sort may give.
mod Prelude
pub mod Nex
pub mod Balloon
pub mod Wire
pub mod Ratings
pub mod Objects
pub mod Metas
pub mod Posts
pub mod Rates
pub mod Buffers
pub mod Names
pub mod Search
pub mod Infos
pub mod Persist
pub mod DataStore
pub mod Presence
pub mod Gates
pub mod Login
pub mod Dashboard
pub mod Avatar
pub mod Utility
pub mod Strings
pub mod Invariant
pub mod Lifetime
pub mod Machine
mod Tests
