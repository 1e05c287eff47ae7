-- ===== src/Lib.antt =====
-- rocksolid: a layer over RocksDB with typed keys and values, column families, batches, iteration
-- under a control function, values with an expiry time, merging, and transactions.
-- How the parts interact. A store (src/cf_store.rs) holds a database of the crate rocksdb. Its
-- operations turn keys and values to bytes (src/serialization.rs, src/types.rs), choose the call
-- of rocksdb by whether the family is the default one, and wrap its error (src/error.rs). An
-- iteration (src/iter) makes a raw iterator, runs a control function over its items, and
-- deserializes those kept; the find_* operations collect one. A batch writer (src/batch.rs)
-- borrows a store and writes its batch at once. The optimistic builder (src/tx/optimistic.rs) runs
-- a closure in transactions until one commits or its policy (src/tx/policies.rs) stops it.
-- The files. Base is what the modules share: numbers, lists of bytes, results, and actions, that
-- is, functions from a state to a result and a state. Errors is src/error.rs; Serialization is
-- src/serialization.rs and src/bytes.rs; Expiry is ValueWithExpiry of src/types.rs. Engine is the
-- record of the calls of rocksdb, a parameter of the model: Engine/Laws states the documented
-- behaviour that theorems name as a hypothesis, and Engine/Memory is an engine that meets it.
-- CfStore is src/cf_store.rs: its reads, with its writes in CfStore/Write and its iteration in
-- CfStore/Find. Iter is src/iter/mod.rs and Iter/Helpers is IterationHelper::execute of
-- src/iter/helpers.rs. Batch is src/batch.rs. Optimistic is src/tx/optimistic.rs and
-- src/tx/policies.rs. Txn is src/tx/cf_tx_store.rs, with its operations within a transaction in
-- Txn/Within, and Txn/Context is src/tx/context.rs; the transactions of rocksdb are a parameter
-- too, with Txn/Laws and Txn/Memory. Transactional is src/tx/macros.rs, the operations of both
-- kinds of transactional store on committed data, in Transactional/Commits and Transactional/Find
-- too. Merge is the validators of src/merge.rs and the default merge functions of src/config.rs.
-- Txn/Iterate is the iteration of a context, and Optimistic/Context is
-- src/tx/optimistic_context.rs. DefaultStore is src/store.rs, with the stores of src/tx/tx_store.rs
-- and src/tx/optimistic_tx_store.rs in DefaultStore/Pessimistic and DefaultStore/Optimistic.
-- Routing is the rest of src/merge.rs and src/compaction_filter/mod.rs, and Routing/Binary is
-- src/compaction_filter/binary.rs. Tuner is src/tuner/tunable.rs, and Tuner/Profiles and
-- Tuner/Families are src/tuner/profiles.rs. Config is src/config.rs, with the configurations of all
-- stores in Config/Stores and their conversions in Config/Convert. Opening is open and destroy of
-- src/cf_store.rs: a configuration becomes options under locks, a profile tunes those that are not
-- locked, a callback may change all, and the merge operator, the comparator and the filter of a
-- family are set last; Opening/Transactional is src/tx/internal.rs, and
-- Opening/Default those of the stores of the default family. Migration
-- is migrate_db of src/utils/mod.rs, and Base62 is src/utils/base62.rs. The crates matchit,
-- fast_radix_trie and base62, the options of rocksdb and f64 are parameters there, and the modules
-- Routing/Prefixes, Base62/Digits and Tuner/Threads stand in for them in the concrete runs.
-- The other modules hold theorems, and the modules named Tests concrete runs. Names are those of
-- the source; set, delete and their like carry their module, as in Batch.set.
-- What a definition stands for. A &self operation that changes the database is an action on the
-- store, which also comes back after an error. Code that may panic answers none of an Option. A
-- byte is a number that AreBytes bounds by 256 where a theorem needs it, and a u64 one below 2 ^
-- 64 by IsU64. A formatted text is the tree of its pieces. The FnMut closures of an iteration pass
-- on the state that they capture, and a raw iterator is the list of the items that it would yield.
-- Fuel. A collection runs on one unit more than there are raw items, since every call of next but
-- the last takes one. The retry loop runs on fuel too, and as much as the attempts that its policy
-- allows is enough. The other loops are structural recursion on the lists that they go over.
-- Not modelled: backup_db and the readers of system limits in src/utils/mod.rs, which only call
-- rocksdb and rlimit; the older RocksDbConfig of src/config.rs, which nothing uses; the Debug texts;
-- the accessors that hand out a field; the macros of src/macros.rs, which expand to calls of a
-- store. Logging and waiting have no effect here, but for the warning that a dropped batch writer
-- logs. That code runs in several threads is not modelled: an operation is one step on the store,
-- and a static router is a state that is passed on. A HashMap is the list of its entries, and its
-- iteration takes the order of the list.
pub mod Base
pub mod Errors
pub mod Serialization
pub mod Expiry
pub mod Engine
pub mod CfStore
pub mod Iter
pub mod Batch
pub mod Optimistic
pub mod Merge
pub mod Txn
pub mod Transactional
pub mod Tuner
pub mod Config
pub mod Opening
pub mod DefaultStore
pub mod Routing
pub mod Migration
pub mod Base62
