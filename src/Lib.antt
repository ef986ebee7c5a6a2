-- ===== src/Lib.antt =====
-- A model of the substrate-kitties node: the pallet of kitties with its weights, the template
-- pallet, the runtime that is composed of them, and the node's chain specifications, command line
-- and services.
--
-- The program is a Substrate chain. Its runtime (runtime/src/lib.rs) puts frame's pallets together
-- with pallet-kitties, pallet-template and orml_nft; its node (node/src) makes the genesis of the
-- chain, and runs blocks and offchain workers. A transaction reaches a pallet as a call with an
-- origin; an unsigned one is first validated by the pallet. The kitties pallet keeps the prices, the
-- class of its tokens and the nonce of `auto_breed`; kitties and their owners are tokens of orml_nft,
-- and payments are transfers of a currency.
--
-- Which file models which part:
-- - Prelude: shared names, Boolean tests, lists, and the laws of binary digits.
-- - Frame: origins, dispatch errors, `ensure!`, `?` and `#[transactional]`, as actions that are given
--   the storage and return a result with the storage they leave.
-- - Kitties: pallets/kitties/src/lib.rs.
--   - Types: `Kitty`, `KittyGender`, `Event`, `Error`, `Call`.
--   - Config: what the pallet takes from `Config` and from code outside the repository, as parameters:
--     orml_nft, the currency, the hash, the codecs; `NftIsLawful`, `CurrencyIsLawful` and
--     `HashIsLawful` say what is assumed of them.
--   - State: the storage items beside the storages of orml_nft and the currency, and the events.
--   - Calls: `combine_dna`, `kitties`, `random_value`, `create`, `do_breed`, `breed`, `auto_breed`,
--     `transfer`, `set_price`, `buy`; `dispatch` picks one by the call. `buy_at` is the body of the
--     closure in `buy`.
--   - Genesis: `build`. Unsigned: `validate_unsigned` and `validate_solution`.
--   - Worker: the hook `offchain_worker` and `run_offchain_worker`; `search_loop` is its
--     first loop on fuel and `pick` the same by recursion, `try_solutions` the second.
--     Its `Found` in Finds says how a search comes upon two kitties of different gender.
--   - Refusals: `Refused` lists the pallet's own reasons to refuse a call, each with its error.
--   - Atomic, Guards, Effects, Valid, Log, Ledger, Ownership, Money: theorems on single calls; Return: on
--     two. Log is a book of kitties that is kept from the events alone; Ledger relates each call to it.
--   - Chain, Pedigree, Replays, Asked, Submission: storages that genesis, calls, validations and
--     payments lead to.
--   - Market: trade in kitties told without the storage, by `trade` and `trades`; Outcome,
--     Refines and Runs relate the calls to it; Bids and Order are about the order of trades.
--   - Benchmarks: pallets/kitties/src/benchmarking.rs, the setup of each benchmark and its call.
--   - Dna: the kitten's DNA. Fixture and Tests: an instance of the parameters, and examples.
-- - Weights: pallets/kitties/src/weights.rs, runtime/src/weights/pallet_kitties.rs, and the weight
--   attributes of the calls.
-- - Template: pallets/template/src/lib.rs; Benchmarks and Mock for benchmarking.rs and mock.rs beside
--   it.
-- - Runtime: runtime/src/lib.rs. Its constants; Configuration for the limits of a block and the
--   `Config` of the pallets; Pallets and Dispatch for `construct_runtime!`, with the pallets of
--   other repositories as a parameter; Chain and Submission for the life of its storage; Fees
--   for what extrinsics cost; Benchmark for `dispatch_benchmark`; Interfaces for `VERSION` and
--   `impl_runtime_apis!`.
-- - Node: ChainSpec for node/src/chain_spec.rs, Command for node/src/command.rs and node/src/cli.rs
--   (About for `impl SubstrateCli`), Service for node/src/service.rs, Rpc for node/src/rpc.rs.
--   - Io: fallible code that changes the state outside. Parts: the libraries' types, `Configuration`.
--   - Service/Calls: the library calls of the services with their arguments. A service leaves the
--     history of its calls; what a call answers is a parameter, and may depend on the history.
--   - Service/Partial, Full, Light: `new_partial`, `new_full`, `new_light`. A Rust value that is cloned or
--     handed out by reference is the same value here. `pure` and `>>=` are `Ok` and `?`.
--   - Service/Follows, Started, Order, Laws: what a service starts, and in which order.
--   - Fixture and Tests: an instance of the libraries, and examples.
--
-- Numbers are natural numbers. Ids are unbounded here and `u32` in the runtime: orml_nft gives out ids
-- and fails when they run out. Bytes and words have their bounds written out (`255 - selector`,
-- `% 2 ^ w`, saturation at `2 ^ 32 - 1`). A panic is `none` or `panicked`. The loops of the worker are
-- structural: the first makes at most 500 turns, and its clause for zero turns is not reached from
-- there; the second makes the turns that remain. `search_loop` has the first as it is written, on
-- fuel, for which 500 is enough. The loop of `do_breed` makes one turn for each byte.
--
-- Not modelled: the types `Event`, `Call`, `Origin` and `PalletInfo` that `construct_runtime!` makes,
-- where a `Config` names them; aliases of types of other repositories, such as the header, the signed
-- extensions and the executive of runtime/src/lib.rs, which carry no behaviour of this program; tests
-- and build scripts. Histories in which the root writes storage directly (`set_storage`, `kill_storage`
-- and `kill_prefix` of System, through Sudo) are not among those of Kitties/Chain and Runtime/Chain. The lock and the random generator of the worker are parameters. A panic inside a
-- parameter is not considered.
pub mod Prelude
pub mod Frame
pub mod Kitties
pub mod Template
pub mod Runtime
pub mod Node
pub mod Weights
