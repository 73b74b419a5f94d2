-- ===== src/Lib.antt =====
-- hive-nectar: a Python client of the Hive blockchain.
--
-- The operations of the chain are made from dictionaries of keyword arguments, a transaction holds a
-- list of them, and both are objects of the wire classes, which `bytes` writes to the form that is
-- signed and sent; a builder collects operations and keys, and makes, signs and sends the
-- transaction; keys and signatures travel as base-58 texts with checksums; requests go over a
-- failover transport to one of several nodes, whose health a pool keeps. This library models these
-- parts:
--
-- - Prelude: shared names, Boolean tests, lists, exceptions as values, Python's integers, bytes, texts
--   and positional notation.
-- - Base58 (src/nectargraphenebase/base58.py): base58encode, base58decode, and the checked forms
--   base58CheckEncode, base58CheckDecode, gphBase58CheckEncode, gphBase58CheckDecode. The hashes of
--   `hashlib` are parameters, of which the theorems use the length of the digest.
-- - Wire (src/nectargraphenebase/types.py, src/nectargraphenebase/objects.py and
--   src/nectarbase/objects.py): Wire is an object of the wire classes, to_bytes its `__bytes__`.
--   Wire.Format is a reader that is written against the format, and Wire.Shape says of which layout an
--   object is.
-- - Values: the Python values that reach the constructors (None, texts, integers, times, Booleans,
--   lists, dictionaries), with `len`, `int`, `bool`, the lookups in dictionaries and json.dumps.
-- - Objects (the constructors of src/nectargraphenebase/types.py, src/nectarbase/objects.py and of
--   PublicKey in src/nectargraphenebase/account.py): from a value to an object of the wire. A class is a
--   row of fields; a field takes the keyword arguments and makes an object or raises. Objects.Shapes
--   shows which layout each makes.
-- - Operations (src/nectarbase/operations.py, src/nectarbase/operationids.py and the constructor of
--   Operation in src/nectargraphenebase/objects.py): a definition for each class, grouped by what the
--   operations are about (Funds, Accounts, Posts, Witnesses, Proposals, Markets, Escrow). Operations.Names
--   has the numbers, Operations.Classes the choice of a class, Operations.Layouts the layout of each
--   number, written apart from the classes.
-- - Transactions (src/nectargraphenebase/signedtransactions.py): the constructor, the id, the message and
--   the signing. The hash and the signing of a message by a key are parameters.
-- - Builder (src/nectar/transactionbuilder.py and finalizeOp of src/nectar/blockchaininstance/core.py):
--   the state of the transaction builder, and its methods as functions of it that also return when they
--   raise: Builder.Blocks builds a transaction, Builder.Signers and Builder.Methods find the keys,
--   Builder.Broadcast signs and sends. Client holds what the builder uses of the blockchain instance;
--   what a call meets of the node and the clock is a Moment, one for each time it may be read. The set of
--   private keys is a list in the order in which Python gives it.
-- - Pool (src/nectarapi/pool.py): NodePool is NodePoolManager, with one function for each method; the
--   clock is an argument, and a health probe is what it meets.
-- - Transport (src/nectarapi/transports.py): handle_request over the pool. The answers of the nodes and
--   the clock are arguments.
-- - Nodes (src/nectarapi/node.py): the list of nodes with the counts that bound the retries, over the
--   pool.
-- - Rpc (src/nectarapi/rpcutils.py, src/nectarapi/graphenerpc.py, src/nectarapi/noderpc.py): the requests
--   (Rpc.Queries), the loop over the nodes that sends one (Rpc), what is read off the reply and the
--   exceptions made of errors (Rpc.Replies), and calls as a whole (Rpc.Calls). What the attempts meet is a
--   list, with what the transport of each attempt makes of the pool that it shares with the client; a loop
--   that comes to its end waits. The reading of JSON is a parameter.
-- - Cache (src/nectar/blockchainobject.py): ObjectCache, a map with expiry, with every read of the clock.
--   Cache.Steps has the ideal cache, which keeps every write, that the real one is compared with.
-- - MasterPassword (src/nectarstorage/masterpassword.py): the encrypted master key and its password. The
--   cipher and the hash are parameters; the theorems that need it assume that the cipher decrypts what it
--   encrypts. Texts that UTF-8 cannot encode are not given to the cipher.
-- - Store (src/nectarstorage/interfaces.py, src/nectarstorage/ram.py): a dictionary over the defaults of
--   its class.
-- - Ledger (src/nectargraphenebase/unsignedtransactions.py): the commands for a hardware wallet.
-- - Rc (src/nectar/rc/core.py): how much of each resource an operation takes.
--
-- Integers are Python's, without bound; where `struct.pack` bounds them, the range is part of the
-- definition. Loops run on fuel: the digits of n have n as fuel, the chunks of a message its length,
-- which is more than each loop takes, as the theorems on them show, a request has one attempt for
-- each node, and the search for keys goes three accounts deep, as in the code. Latencies and
-- penalties, which are floats, count thousandths of a millisecond.
--
-- The constructors take from outside what third-party code does: the record Outside holds the
-- hashes, the compression of a point on the curve, and the rounding of an amount given as a float or
-- a text. A date is the number of its seconds, as timegm counts them. Data of an operation that is
-- neither a dictionary nor an object is refused with TypeError.
--
-- Not modelled: chains other than those in src/nectargraphenebase/chains.py, the JSON texts of
-- objects, changes that a constructor makes to the dictionary of its caller, hardware wallets beyond
-- the commands of Ledger, the command line, the classes over the calls of the node APIs, sessions
-- and sockets, threads and locks (an operation that holds the lock is one step), logging, the hashes
-- and ciphers themselves, and the arithmetic on floats and decimals.
pub mod Base58
pub mod Builder
pub mod Cache
pub mod Ledger
pub mod MasterPassword
pub mod Nodes
pub mod Objects
pub mod Operations
pub mod Pool
pub mod Prelude
pub mod Rc
pub mod Rpc
pub mod Store
pub mod Transactions
pub mod Transport
pub mod Values
pub mod Wire
