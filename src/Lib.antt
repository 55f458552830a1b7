-- ===== src/Lib.antt =====
-- A verification library for the simulated chain of cw-it, a crate for integration tests of CosmWasm
-- contracts. Paths are from the repository's root.
--
-- The parts and how they interact. A test drives a runner (src/multi_test/runner.rs), which converts
-- protobuf messages to the messages of a multi-test app and hands them to it. The app gives messages
-- and queries that it does not know itself to a stargate module (src/multi_test/modules/
-- unified_stargate.rs), which may hold an extra module: the token factory of Osmosis
-- (src/multi_test/modules/token_factory.rs) or that of Coreum (token_factory_coreum.rs beside it,
-- with a query module for contracts). Both factories act on the app's bank. On top of a runner stand
-- helpers (src/helpers.rs), robots (src/robot.rs), the deployment of astroport and the work with its
-- pairs (src/astroport/) and the helpers for Osmosis (src/osmosis/).
--
-- Which file models which part:
--   Base         what the modules share: tests, equality, lists over the native numbers.
--   Text, Regex  text as bytes, split, decimal numbers, and the regular expressions of the crate.
--   Chain        coins, events, responses, errors as values, the monad of a handler, and the
--                interfaces of the bank's router and of the maps in the storage. Supply holds what
--                is asked of a bank that keeps its supplies, Histories runs messages one after the
--                other, Entries counts the entries of a map.
--   SdkCoin      both versions of coin_from_sdk_string.
--   TokenFactory the Osmosis factory: create_denom, mint, burn, handle_any, execute, query, sudo.
--                Supply is about its histories.
--   Coreum       the Coreum factory: Fungible (issue, mint, burn), Nft (issue_class, nft_mint,
--                nft_burn, nft_send), Handle (handle_any, execute, query, sudo), Query and Answers
--                (CoreumQueryModule). Invariant, Authority, Permanence, Supply and
--                Count are about the whole of it.
--   UnifiedStargate  query, execute and sudo of the stargate module.
--   Runner       Convert (the conversion in execute_multiple_raw), Execute (execute_cosmos_msgs,
--                execute_multiple, execute_multiple_raw, store_code), Accounts (init_account,
--                init_accounts), Build (new, new_with_stargate) and Time (increase_time,
--                query_block_time_nanos, query).
--   Batches      a batch of messages on its way through the runner, the app and the stargate module
--                to a factory: Passing and Atomic for any extra module, Supply for that of Osmosis,
--                Coreum for that of Coreum.
--   Addresses    addr_validate, addr_canonicalize, addr_humanize and addr_make of
--                src/multi_test/api.rs, and src/multi_test/mock_address_generator.rs, which Generator
--                is about.
--   TestRunner   the choice of a runner and the calls passed on to it, src/test_runner.rs.
--   Client       the clients Wasm and Bank of a runner, as interfaces.
--   Macros       src/multi_test/macros.rs.
--   Helpers      src/helpers.rs, src/const_coin.rs, the coins of src/traits.rs and the contract of
--                src/test_helpers.rs (TestContract); Uploads and Expectation are about them.
--   Robot        src/robot.rs.
--   Astroport    src/astroport/: Setup (instantiate_astroport, whose messages Calls writes out), Astro
--                (create_astro), Assets (assets and the events of a new pair), Pairs
--                (create_astroport_pair, provide_liquidity, get_lp_token_balance), Robot (the robot),
--                Artifacts (names, paths, setup_astroport).
--   Osmosis      src/osmosis/: LpTokens (utils.rs), Robot (robot.rs) and TestPool (test_pool.rs, its
--                generators in Strategies; Denoms and Drawn are about them).
--   Artifact     where code comes from, src/artifact/.
--   Rpc          the runner over RPC, src/rpc_runner/: new, execute_multiple_raw, execute_multiple,
--                query, raw_query, store_code, init_account, init_accounts (runner.rs);
--                Blocks: poll_for_n_blocks and wait (chain.rs). Execute, Polling and Unconfigured
--                are about it.
--   TestApps     src/osmosis_test_app.rs and src/coreum_test_app.rs.
--   Tests        small instances of the interfaces, runs, and the theorems at concrete inputs.
--
-- How the code is modelled. A handler is a function from the state to a result and the next state;
-- a result is a value, an error or a panic. The state that a failed handler leaves is what it had
-- written until then: the chain simulator, which is outside this repository, drops the writes of a
-- failed transaction: a history of single messages does so by commit, and a batch by atomic, where
-- IsRouting says what is asked of the app. Rust's text is the list of its bytes. The bank, the
-- router, the maps of cw_storage_plus, bech32, the signing keys and the protobuf and JSON codecs
-- are parameters; the maps' documented laws are the record IsLawful. A u128 is a natural number
-- that the parser keeps below 2 ^ 128; 39 digits print each of them. A feature of an NFT class is
-- an i32 by its 32 bits. No recursion needs fuel but the printing of digits and the loops that
-- wait for blocks. A hash map is the list of its entries; where a function walks one, its order is
-- the order of the list. An `unwrap` of a failed call is a panic. What differs by the feature of
-- the chain is an argument.
--
-- What is not modelled: the reading of configurations, execute_tx, what the test apps only hand on,
-- block_on, the probabilities of proptest, whose strategies are predicates on what can be drawn, and
-- printing to the terminal.
pub mod Base
pub mod Text
pub mod Regex
pub mod Batches
pub mod Chain
pub mod SdkCoin
pub mod TokenFactory
pub mod Coreum
pub mod UnifiedStargate
pub mod Runner
pub mod Addresses
pub mod TestRunner
pub mod Client
pub mod Helpers
pub mod Robot
pub mod Astroport
pub mod Osmosis
pub mod Artifact
pub mod Rpc
pub mod Macros
pub mod Tests
pub mod TestApps
