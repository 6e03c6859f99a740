-- ===== src/Lib.antt =====
-- The model of HopeLend that its test suites keep beside the contracts, and what it is compared with.
--
-- The program. The TypeScript part of the repository predicts, for every action on the pool, the data
-- of the reserve and the position of the user that the contracts must report afterwards. The
-- prediction is pure: test-suites/helpers/utils/calculations.ts computes with BigNumber on the data
-- before the action, through the fixed-point arithmetic of test-suites/helpers/utils/wadraymath.ts.
-- The test actions (test-suites/helpers/actions.ts) read the data from the contracts
-- (test-suites/helpers/utils/helpers.ts), send the transaction, read again and compare; the scenario
-- engine (test-suites/helpers/scenario-engine.ts) runs them as the stories of a scenario demand.
--
-- The files and the code.
-- BigNumber.antt: the methods of BigNumber (@ethersproject/bignumber) as a record that all
-- calculations take, and the laws that the package documents. The integers are an implementation, on
-- which everything can be run.
-- Constants.antt: helpers/constants.ts. Types.antt: the interfaces of
-- test-suites/helpers/utils/interfaces/index.ts and the parameters of helpers/types.ts. An object
-- under construction starts as {}: its fields are options, and the use of a missing one is an error.
-- WadRay.antt: wadraymath.ts, one function for the method and the function of the same name.
-- Interest.antt: the interest formulas, indexes and balances of calculations.ts. Rates.antt: usage
-- ratios, average rates and calcExpectedInterestRates. State.antt: updateState and the updates of
-- liquidity, ratios and rates that the actions share.
-- Reserve.antt and its children: calcExpectedReserveDataAfter* for deposit and withdrawal
-- (Liquidity), the bridge (Bridge), borrow, repayment, and the swap and rebalance of rates (Swap).
-- User.antt and its children: calcExpectedUserDataAfter*. A call that throws is an error value of
-- Prelude/Result.antt; the code that writes into its argument is a function that returns the record.
-- The module variable configuration is an argument.
-- Contracts.antt and its children: contracts/protocol/libraries/math and
-- DefaultReserveInterestRateStrategy.sol on 256-bit words, Yul arithmetic wrapping around and checked
-- arithmetic reverting, for the comparison with the TypeScript functions.
-- Snapshot.antt: complete data of natural numbers, as the contracts report them. The children named
-- Fixed and Values carry the calculations to natural numbers.
-- Errors.antt: ProtocolErrors of helpers/types.ts. TypedData.antt: the EIP-712 data of
-- helpers/contracts-helpers.ts. ForkConfig.antt: helper-hardhat-config.ts.
-- Comparison.antt: almostEqualOrEqual and expectEqual of actions.ts, on objects as lists of keys
-- and values.
-- Chain.antt: the interface of a running chain, with the views of the contracts, the transactions and
-- the clock of the node, and that of ethers. Chain/Reading.antt: the data that helpers.ts reads.
-- Actions.antt and its children: the actions of actions.ts as runs of Prelude/Run.antt, which pass
-- the state of the chain on and stop at an exception: mint, approve, deposit, supplyWithPermit and
-- withdraw (Supply), delegateBorrowAllowance, borrow, repay and repayWithPermit (Debt), and
-- setUseAsCollateral, swapBorrowRateMode and rebalanceStableBorrowRate (Modes).
-- Scenario.antt and its children: executeAction (Dispatch) and executeStory (Runs) of
-- scenario-engine.ts; Scenario/Needs.antt is the table of what each
-- action needs, and Scenario/Called.antt that of what it calls.
-- Events.antt: matchEvent of helpers.ts. Events/Tokens.antt and Events/Transfers.antt: the events that
-- test-suites/helpers/utils/tokenization-events.ts expects after an action, and those that it decodes.
-- Events/Runs.antt: its eight actions as runs over the chain.
-- Tests.antt: the theorems at concrete data.
--
-- Bounds and fuel. The loops are structural: the search for a symbol in the configuration, the keys of
-- an object, the actions of a story, the logs of a transaction.
-- The TypeScript numbers have no bound; the words of the contracts have 256 bits. Block times of 40
-- bits are natural numbers.
--
-- Not modelled: the contracts beyond the four above, which the chain's interface stands for, the
-- printing of events, the set-up of a test network, signatures, which are a parameter, and the test
-- suites. Texts of numbers are the numbers that they spell. A key of an object's prototype is not a
-- network's name.
pub mod Prelude
pub mod BigNumber
pub mod Constants
pub mod WadRay
pub mod Contracts
pub mod Types
pub mod Interest
pub mod Rates
pub mod State
pub mod Reserve
pub mod User
pub mod Snapshot
pub mod Errors
pub mod TypedData
pub mod ForkConfig
pub mod Comparison
pub mod Chain
pub mod Actions
pub mod Scenario
pub mod Events
pub mod Tests
