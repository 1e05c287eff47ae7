-- ===== src/Opening/Engines.antt =====
-- Which engine a transactional store opens (src/tx/cf_tx_store.rs, src/tx/cf_optimistic_tx_store.rs,
-- and the stores of the default family around them).
use rocksolid.Base.{◌≡◌, ◌≢◌, refl, arith, inl, inr}
use rocksolid.Base.Outcome.{err, Result-cases}
use rocksolid.Errors.{Message, invalid_configuration}
use rocksolid.Tuner.{Kinds}
use rocksolid.Config.Stores.{
  pessimistic, TransactionalStoreConfig, TxnStoreConfig, OptimisticTxnStoreConfig,
  CfOptimisticTxnStoreConfig,
}
use rocksolid.Config.Convert.{transactional_config, cf_optimistic_config, cf_transactional_config}
use rocksolid.Opening.Transactional.{
  TransactionalApi, open_db_internal, open_pessimistic_store, open_optimistic_store, db_options,
  descriptors,
}
use rocksolid.Opening.Default.{open_txn, open_optimistic_txn}

module _ {E : Type 0} {K : Kinds} {T Pess Opt World : Type 0}
    (api : TransactionalApi E K T Pess Opt World) (w : World) (m : Message E) where
  pessimistic_accepted :
      (cfg : TransactionalStoreConfig K T) (o : T)
      → cfg.engine ≡ pessimistic o
      → (open_pessimistic_store api cfg w).0 ≢ err (invalid_configuration m)
  unfolding open_pessimistic_store open_db_internal
  pessimistic_accepted cfg o q h =
      let r = (api.open_pessimistic (db_options api cfg) o cfg.path (descriptors api cfg) w).0 in
      elim (Result-cases r) [ inl (d, p) ↦ ground arith | inr (e, p) ↦ ground arith ]

  optimistic_accepted :
      (cfg : CfOptimisticTxnStoreConfig K)
      → (open_optimistic_store api cfg w).0 ≢ err (invalid_configuration m)
  unfolding open_optimistic_store open_db_internal cf_transactional_config
  optimistic_accepted cfg h =
      let full = cf_transactional_config cfg in
      let r = (api.open_optimistic (db_options api full) cfg.path (descriptors api full) w).0 in
      elim (Result-cases r) [ inl (d, p) ↦ ground arith | inr (e, p) ↦ ground arith ]

  -- The pessimistic store of the default family, the optimistic one, and the optimistic store of many
  -- families never meet the other engine: their `open` reports no invalid configuration.
  pub opens_own_engine :
      (default_options : T) (c : TxnStoreConfig K T) (c' : OptimisticTxnStoreConfig K)
      (c'' : CfOptimisticTxnStoreConfig K)
      → ((open_txn api default_options c w).0 ≢ err (invalid_configuration m))
        × ((open_optimistic_txn api c' w).0 ≢ err (invalid_configuration m))
        × ((open_optimistic_store api c'' w).0 ≢ err (invalid_configuration m))
  unfolding open_txn open_optimistic_txn
  opens_own_engine default_options c c' c'' = (
    pessimistic_accepted (transactional_config default_options c) _
        (unfold transactional_config in refl),
    optimistic_accepted (cf_optimistic_config c'),
    optimistic_accepted c'',
  )
