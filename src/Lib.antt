-- ===== src/Lib.antt =====
-- bitmigo, a Bitcoin node: its script verification, rules of transactions and blocks, and queues.
--
-- The program. crates/consensus holds the consensus rules as pure code: scripts (src/script),
-- headers, blocks and transactions. crates/bitmigo is the node around them: the header tree, the
-- download of blocks, peers, the store and the runtime. crates/differential compares the rules with
-- Bitcoin Core. The node hands every input of a block to the script code, so a wrong verdict splits it
-- from the network and a panic, which the release profile turns into an abort, stops it.
--
-- What is modelled is, first, crates/consensus/src/script, bottom up; each module names its file.
--   Script.Error       error.rs: `ScriptError`; and `Outcome`, a result or an error or a panic
--   Script.Num         num.rs: `ScriptNum` and its byte encoding, `cast_to_bool`
--   Script.Opcode      opcode.rs: opcode bytes and the questions asked of them
--   Script.Flags       script_flags.rs: the set of rules, a bit mask
--   Script.Stack       stack.rs: `Stack`, a list with the top of the stack first
--   Script.Reader      reader.rs: `read_op`, `Reader`, `push_encoding`
--   Script.Conditions  interpreter.rs: `ConditionStack`
--   Script.Machine     interpreter.rs: `Machine`, `ExecData`; checker.rs and the hashes as interfaces
--   Script.StackOps    interpreter.rs: `stack_op_pairs`, `stack_op_singles`, `pick_or_roll`, `equal`
--   Script.Numeric     interpreter.rs: `numeric_unary`, `numeric_binary`, `within`, `hash`
--   Script.FindDelete  interpreter.rs: `find_and_delete`
--   Script.Der         interpreter.rs: `is_valid_signature_encoding`, `check_signature_encoding`
--   Script.Signatures  interpreter.rs: `checksig`, `checksigadd`, `checkmultisig`
--   Script.Interpreter interpreter.rs: `execute` and `eval_script`
--   Script.Programs    verify.rs: the output patterns, `is_push_only`, `has_op_success`
--   Script.Sigops      sigops.rs: the three counts of signature operations
--   Script.Taproot     taproot.rs: the control block, the commitment, the sigop budget
--   Script.Sighash     sighash.rs: `TxPrecomputed`, the legacy, witness v0 and taproot digests
--   Script.Checker     checker.rs: `TxSigChecker`, which answers the interpreter's questions
--   Script.Verify      verify.rs: `verify_script`; Script.Verify.Input: `verify_input`
-- Then, from crates/consensus/src and crates/bitmigo/src:
--   Tx                 tx.rs: values, fees, coinbase maturity and relative lock times
--   Header.Uint        header/uint.rs: `U256` and its arithmetic
--   Block.Merkle       block/merkle.rs: `merkle_root` with its mutation detector
--   Node.Queue         runtime/queue.rs: `PeerToChain` and `ChainToValidation`
-- A child module proves what its name says of its parent: Safety the absence of panics with the
-- invariants that give it, RoundTrip, Codec, Refine, Matching, Effects, Values what they name.
--
-- How the model corresponds to the code. A failed `assert!`, `expect`, index or checked operation is
-- the outcome `panic`, so a theorem `Safe P o` says that `o` is no panic and that `P` holds of its
-- result, and `Returns P o` that `o` is neither a panic nor an error and that `P` holds of it. `i64` is the integers with the range checked where the code checks it, `usize` the natural
-- numbers: no length of a script or stack comes near 2^64. A byte is a number, and `IsBytes` says
-- that it is below 256; masks of one bit are comparisons and remainders. `&mut self` is a machine
-- passed on and returned; after an error its state is not modelled, since every caller drops it. The
-- `match` of `execute`, whose arms are disjoint, is cut into three functions.
--
-- Loops run on fuel, and no fuel is `panic`, so that a theorem against panics covers it:
-- `eval_loop` has one round more than the script has bytes, since a round reads a byte or ends;
-- `walk` and `skip_copies` of `find_and_delete` likewise; the matching loop of `OP_CHECKMULTISIG` has
-- the 20 rounds of its own assertion; `scan` is the loop of `is_push_only` and `has_op_success`. The
-- loops of sigops.rs are bounded in the source, and end there as they do here.
--
-- Not under this repository, and so parameters: secp256k1, the bitcoin crate's hashes and its
-- consensus encoding. The record `Checker` has the four questions of `TxSigChecker`, and `CheckerSafe`
-- what the interpreter relies on: no panic for an ECDSA check outside tapscript, for a Schnorr check
-- with a key of 32 bytes and an annex that starts with its tag, and for lock times of five bytes that
-- are not negative; `checker_of` fills it with checker.rs. `Hashes` has the five hash functions, and
-- `HashesSafe` their lengths. `Primitives` has the tagged hashes, the `VarInt` and the curve that
-- taproot.rs asks, of which only the length of a `VarInt` is assumed. `Encoders` has the encodings
-- that sighash.rs feeds to a hash engine, here the list of the bytes fed, and `Writes` says that none
-- of them is empty. `Curve` has secp256k1's parsing and
-- verification, and takes any 64 bytes for a Schnorr signature, as the code expects of its parser.
--
-- A witness, a type of the bitcoin crate, is the list of its items. `IsWitnessItem` bounds an item by
-- 10,001 bytes, since one that is run as a tapscript has no limit of its own, and
-- `ConditionStack::push` asserts a depth of 10,001 at most. The check of the txid in
-- `assert_built_for` is one of debug builds, and left out.
--
-- A value and an error of tx.rs are a `Verdict`. The queues are the states between two waits: a thread
-- that blocks is an entry of the waiting list, and a step relation lets every thread go on in any
-- order; timeouts are steps that change nothing. A limb of `U256` is a number below 2^64, each
-- operation on a limb with its wrap-around.
--
-- Further bounds: `climb_levels` has the 33 rounds of the loop of `merkle_root`.
--
-- Not modelled: the rest of tx.rs (`check_tx` beyond the values, `is_final`, `sigop_cost`), the shifts
-- and the long division of `U256` with the targets over them, the block and chain rules, the chain
-- tree, the download and the peers, which are to follow; the test vectors, the store, threads and
-- sockets, which are data or I/O.
pub mod Prelude
pub mod Script
pub mod Node
pub mod Header
pub mod Tx
pub mod Block
