-- ===== src/Lib.antt =====
-- The vendor tool of the bitcoin bridge of Poly Network: it watches Poly for bitcoin transactions to
-- sign, signs them with the vendor's key, sends the signatures back to Poly, and remembers them.
--
-- The parts and how they interact. The observer (observer/alliaob.go) asks Poly for the events of
-- each new block. A `makeBtcTx` event for this vendor becomes a ToSignItem, which goes to the signer
-- over a channel or, where the signer is another process, over its REST server (rest/). The signer
-- (signer/signer.go) signs each input, calls BtcMultiSign of Poly until Poly answers, and puts a
-- SavedItem into the database (db/db.go), a leveldb with a cache before it. A `btcTxToRelay` event
-- makes the observer mark the item as done there. The pages in web/ set up keys and the
-- configuration, register contracts and set parameters; cmd/run.go starts all of it.
--
-- The files.
--   Base, Std: shared names and lemmas; encoding/binary, encoding/hex, strconv and time.Time of Go.
--   Wire, LevelDb, Btc: what the tool uses of btcd/wire, goleveldb and txscript. These are parameters:
--     records of functions, with the documented behaviour as IsOnWire, IsLevelDb,
--     IsIterable and IsReliable.
--   Utils: utils/utils.go. Utils/ToSign and Utils/Saved have ToSignItem and SavedItem with Serialize
--     and Deserialize, Utils/Key has GetUtxoKey.
--   Db: db/db.go. VendorDb is VendorDB; PutSignedTx, GetSignedTx, SetTxDone, GetTotalTxNum and
--     ReadFirstBatch are put_signed_tx, get_signed_tx, set_tx_done, get_total_tx_num and
--     read_first_batch; Db/Cache is VendorCache, Db/Batch the sort of ReadFirstBatch. The children
--     View, Put, Done, Unwritten, Total, FirstBatch, Reopen, Reliable, Keeps and Reach hold the proofs;
--     Reach has the calls as a step relation, and Unwritten what SetTxDone leaves if its write fails.
--   Signer: signer/signer.go. get_sigs, submit, sign_next, signing and sign are getSigs, the retry
--     loop around BtcMultiSign, one round of Signing, Signing, and Sign.
--   Observer: observer/alliaob.go. Client is ObCli, Events is checkEvents, Height is getLastHeight and
--     setLastHeight, Scan is Listen, Setup NewObserver.
--   Rest: rest/. Service is SignTx, Router the Router of rest/http/restful/router.go, with the
--     parameters of its paths, Server the handlers and Start of restful_server.go, Split both
--     processes together, Client the RestClient of rest/http/restful/rest_client.go, and Spv what it
--     sends and gets.
--   Pipeline: the observer, the signer and the database in one process: one after the other in
--     Pipeline itself, and taking turns in any order over the shared channel and database, as a step
--     relation, in Interleaved, with the proofs in Kept, Order and Drained. Noticed has checkEvents
--     as turns, and Whole the way from the start of the process to the turns.
--   Config: config/config.go, and Config/Flags is config/flags.go.
--   Web: web/. Service has SignContract, SetContract, SignParam and SetParam of
--     web/service/service.go, Redeem has GeneRedeem and GenePrivkAndAddr, Strings what they use of the
--     package strings. Pages has the posted fields and the pages of web/controller/controller.go, and
--     Controller its handlers for contracts and parameters; the children Keys, Setup and Status have
--     HandleGenePrivk and HandleGeneRedeem, HandleInit, and HandleStatus, in the form that Stateful
--     gives to handlers that change the Config as they go. Signed has what is signed for a contract
--     against what is registered. Router is web/router/router.go, where gin recovers from a handler
--     that panics.
--   Start: cmd/run.go, from the flags to the services that run; Configured has the settings and
--     passwords it goes on with. Start/Main is setupApp, main and waitToExit around it.
--   Log: log/log.go, the levels and which messages are written; Lines has the text of a line, Files
--     what it is written to, and Reaches the proofs.
--   Run: how a run that waits for answers from outside stands.
--   Tests: the theorems at concrete inputs.
--
-- State and errors. A method that changes its receiver returns the new state beside its result; an
-- error is a value, and an index out of range or a failed type assertion is a panic of its own.
-- VendorDB holds its lock for the whole of each method, so a method is one step. What comes from
-- outside (the replies of Poly, the answers to a POST, the success of a call for events) is a list,
-- one element for a call; the retry loops are recursions on that list, and a list that ends leaves
-- them waiting. Only the decimal printer of Std/Decimal runs on fuel, for 20 digits, which is enough
-- for every number below 10 ^ 20 and so for 64 bits. Numbers are natural numbers with the wrap-around of their width
-- written out: the total in the cache modulo 2 ^ 64, heights modulo 2 ^ 32.
--
-- Not modelled: requests of the web server that overlap, the waiting times, and what Sprintf makes of
-- a format string.
-- The parsing of JSON is a step's input or a parameter. What gin, urfave/cli, the Poly SDK, btcutil,
-- txscript, ontology-crypto and net/http do is a parameter of the definitions that call it.
pub mod Base
pub mod Std
pub mod Wire
pub mod Utils
pub mod LevelDb
pub mod Db
pub mod Btc
pub mod Signer
pub mod Run
pub mod Observer
pub mod Rest
pub mod Config
pub mod Web
pub mod Pipeline
pub mod Start
pub mod Log
mod Tests
