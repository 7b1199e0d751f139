-- ===== src/Lib.antt =====
-- A model of the Lido staking contracts for ATOM, four CosmWasm contracts and their two packages.
--
-- The parts and how they interact:
--   * the hub (contracts/lido_cosmos_hub) takes coins from users and from the rewards dispatcher, delegates
--     them, lets the token contract mint and burn stATOM, collects requests to unbond in batches, and pays
--     batches out when the unbonding period has passed;
--   * the validators registry (contracts/lido_cosmos_validators_registry) keeps the list of validators; the
--     hub asks it for them and splits delegations and undelegations with its two functions of common.rs;
--   * the rewards dispatcher (contracts/lido_cosmos_rewards_dispatcher) takes a fee from the rewards and
--     sends the rest to the hub;
--   * the token (contracts/lido_cosmos_token_statom) is a cw20 ledger that asks the hub for a check for
--     slashing at each burn;
--   * packages/basset holds the types and messages that they share, packages/signed_integers a signed
--     difference.
--
-- The files:
--   * Base and its children: lists, results, tests, maps, keys, a stable sort;
--   * Cosmwasm: checked words, fixed-point numbers and the types of cosmwasm_std;
--   * Basset, Messages: packages/basset/src/hub.rs and the messages that the contracts send;
--   * SignedInt: packages/signed_integers/src/signed_integer.rs;
--   * Registry/Common: common.rs; Registry/Msg and Registry/Contract: msg.rs, registry.rs, contract.rs; the
--     theorems on the split are in Targets, Delegation, Rounds and Undelegation, those on the contract in
--     Entries, Removal and Listing;
--   * Hub/Store and Hub/Lists: state.rs; Hub/Rates: math.rs and the rate of a batch; Hub/Withdraw and
--     Hub/Unbond: unbond.rs; Hub/Bond: bond.rs; Hub/Admin: config.rs and the handlers of contract.rs that an
--     owner or a guardian calls; Hub/Slashing, Hub/Contract, Hub/Msg and Hub/Queries: the rest of
--     contract.rs; the theorems are in Release, Process, Released, Withdrawal, Exchange, Delegations, Flows,
--     Access, Frames, TokenAddress, Queue, Payout, Claimable, Buckets, Withdrawable, Progress, Rewards,
--     Pages and Solvency; Book is what the hub promises to those who unbond, a book of claims, and its
--     children relate the hub to it; the children of Solvency go from one batch over one release to all
--     storages that a hub comes to;
--   * Dispatcher and Token: the two smaller contracts;
--   * System: messages from one contract to another;
--   * Tests: concrete inputs, and the theorems at these inputs.
-- A function has the name that it has in the source. A handler takes the storage and returns the response
-- and the new storage, or a failure; the chain drops what a failed call wrote.
--
-- Numbers are natural numbers; an operation on a word fails by a panic, or by the error that the source
-- returns, where it leaves its range. The fixed-point numbers of cosmwasm_std and cosmwasm-bignumber, the
-- ledger of cw20-base, the answers to queries, the validation of addresses and the encoding of messages are
-- not part of the repository: they are arguments, the fixed-point numbers with the laws that they document.
--
-- Loops with a counter that the source does not bound run on fuel. `undelegate_while` has one turn more than
-- the amount, since each turn takes back a coin at least; the loops over stored batches have one turn more
-- than the highest stored id.
--
-- Not modelled: tests and mocks, the generation of schemas, crate roots, contract_error.rs (an error type
-- that the contracts do not build), and the attributes of serde and of the schemas.
pub mod Base
pub mod Cosmwasm
pub mod Basset
pub mod Messages
pub mod SignedInt
pub mod Registry
pub mod Hub
pub mod Dispatcher
pub mod Token
pub mod System
pub mod Tests
