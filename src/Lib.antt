-- ===== src/Lib.antt =====
-- A model of nutmix, a Cashu mint: it signs blinded messages as ecash, takes ecash proofs back, and
-- moves money over a lightning backend.
--
-- The parts and their files:
--   Prelude: native numbers, tests, lists, sets of texts, maps, and 64-bit words with their
--     wrap-around.
--   Cashu (api/cashu): Errors has the sentinel errors and results; Types the records; Convert units
--     and Amount.To; Amounts AmountSplit and the change messages of internal/utils/proofs.go; Fees
--     the input fees; Keys the ids of keysets; Codes the error codes; Auth blind auth tokens;
--     SpendCondition and its child modules the locks of proofs (P2PK, HTLC, tags, witnesses, quorums,
--     SIG_ALL of swaps and melts).
--   Crypto: HashToCurve and, in Blinding, what wallets and the mint do with points
--     (pkg/crypto/bdhke.go); Dleq the proofs beside blind signatures (api/cashu/types.go), over the
--     operations of the curve in Curve.
--   Database (internal/database/postgresql): the tables as lists and each statement as a function
--     of them, with the constraints that its insertions can violate; Seeds has those on the seeds.
--   Mint (internal/mint): Environment has the signer, the lightning backend, the configuration, the
--     faults of the database, the clock and the other requests; Exec the monad of a request; Units,
--     Inputs, Outputs and Balance the checks; Swap is swapping.go, Quotes minting.go, Melt and its
--     child modules melting.go, State proofs.go, Restore restore.go, Auth the blind tokens of
--     auth.go with the middleware in front of the routes (internal/routes/middleware/auth.go);
--     Polling is bolt11.go, Setup mint.go with the configuration (internal/utils/common.go); Codes
--     has ParseErrorToCashuErrorCode (internal/utils/proofs.go).
--   Signer (internal/signer): Library has what the local signer calls, Paths its derivation paths,
--     Ids the ids of keysets as it checks them, Keysets the keys of seeds, Local signing and the
--     check of proofs, Answers the public keys that it tells, Seeds and Rotate new seeds, rotation
--     and the start; Swap puts the local signer behind the interface that the mint calls.
--   Lightning (internal/lightning): FakeWallet is the backend for tests as an instance of the
--     interface, with the fee reserve and the mock invoice.
--   Routes: Cache the cache of responses in front of mint, melt and swap
--     (internal/routes/middleware/cache.go), over any handlers, and Replay what it promises.
--   Checks: examples that apply the theorems, and tests.
--
-- A request is a function from a world (committed tables, the working copy of an open transaction,
-- the number of calls so far) to a result and a world. A result is a value, an error or a panic; an
-- error is the list of the sentinel errors that errors.Is finds in it. A transaction starts from
-- the committed tables as the other requests have left them, and a call to the database works or
-- fails as the environment says: that is how interleavings and lost connections come in. A
-- transaction that a handler leaves open on an error, for the deferred rollback to close, stays
-- open in the model until the next one begins; a rollback is a step in a swap's second transaction,
-- whose result is used, and in the poll of a melt quote.
--
-- Code of other packages is a parameter: JSON, hexadecimal texts, SHA-256, signatures,
-- floating-point rounding (Cashu.Externals), the operations of the curve (Crypto.Curve, with the
-- laws of a group as the hypothesis of the theorems that need them), hdkeychain, bip32 and the check
-- of a proof by gonuts (Signer.Library), base64, regular expressions (Cashu.Auth), the lightning
-- backend and the decoding of invoices (Mint.Environment), the invoice library and floating-point
-- numbers as words (Lightning.FakeWallet), the store of the cache (Routes.Cache), connecting to a
-- lightning backend or to an OpenID Connect service (Mint.Setup). The mint's operations take any
-- signer behind the interface. A theorem that relies on what one of these does says so in a
-- hypothesis. A public key is the text of its serialisation. A Go map is a list of entries, and an
-- iteration over it goes in the order of the list.
--
-- Loops are structural recursion. AmountSplit has the amount itself as fuel, and each round halves
-- it, so the fuel is enough; HashToCurve has the 2 ^ 16 rounds of the source. Sums, differences and
-- products of amounts wrap at 2 ^ 64.
--
-- Not modelled: the wire formats that are written (JSON out, HTTP, gRPC, web sockets), events to
-- observers, the remote signer, the network code of the other lightning backends, statistics, the
-- files of the configuration, clear auth tokens, which an OpenID Connect service verifies.
-- Timestamps are natural numbers.
-- The bounds of integer columns, the validation of an Amount with no unit, which the model cannot
-- express, and the errors of a batch of statements behind its first, which are only logged, are left
-- out: a batch of statements here runs as a whole or fails as a whole.
pub mod Prelude
pub mod Cashu
pub mod Crypto
pub mod Database
pub mod Mint
pub mod Signer
pub mod Lightning
pub mod Routes
pub mod Checks
