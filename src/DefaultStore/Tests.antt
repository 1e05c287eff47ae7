-- ===== src/DefaultStore/Tests.antt =====
-- The theorems on the stores of the default family at concrete data, over the engine in memory.
use rocksolid.Base.{List, ℕ, ◌≡◌, ◌≢◌, arith, [], ◌∷◌, Bytes, str_eq_iff}
use rocksolid.Base.Outcome.{ok, err}
use rocksolid.Errors.{text}
use rocksolid.Serialization.{Codec, KeyType}
use rocksolid.Engine.{default_cf}
use rocksolid.Engine.Memory.{memory, memory-IsKeyValue, fresh}
use rocksolid.CfStore.{CfStore}
use rocksolid.DefaultStore.{put_raw, merge_raw, delete, delete_range, put, merge, put_with_expiry}
use rocksolid.DefaultStore.Runs.{
  Op, put_op, merge_with_expiry_op, multiget_op, delete_op, exists_op, run, on_plain,
  on_pessimistic, on_optimistic, default_runs_agree,
}
use rocksolid.DefaultStore.Frame.{Spares, writes-Spares}

abbrev raw_keys : KeyType ℕ Bytes
raw_keys = record { as_bytes = λ k. k; decode = λ b. ok b }

-- A codec that refuses the empty value.
abbrev strict_codec : Codec ℕ Bytes
strict_codec = record {
  serialize = λ v. elim v [ [] ↦ err (text "empty") | x ∷ xs ↦ ok (x ∷ xs) ];
  deserialize = λ b. ok b;
}

abbrev store : CfStore memory
store = record { db = fresh; cf_names = "default" ∷ "logs" ∷ []; path = "/tmp/db" }

abbrev key : Bytes
key = 7 ∷ []

logs_apart : "logs" ≢ default_cf
logs_apart e = ground (arith, str_eq_iff "logs" default_cf)

writes-Spares_example :
    Spares memory-IsKeyValue
      (record { cf_store = store })
      (put_raw memory raw_keys key (1 ∷ []))
      "logs"
      key
    × Spares memory-IsKeyValue
        (record { cf_store = store })
        (merge_raw memory raw_keys key (1 ∷ []))
        "logs"
        key
    × Spares memory-IsKeyValue (record { cf_store = store }) (delete memory raw_keys key) "logs" key
    × Spares memory-IsKeyValue
        (record { cf_store = store })
        (delete_range memory raw_keys key (9 ∷ []))
        "logs"
        key
    × Spares memory-IsKeyValue
        (record { cf_store = store })
        (put memory raw_keys strict_codec key [])
        "logs"
        key
    × Spares memory-IsKeyValue
        (record { cf_store = store })
        (merge memory raw_keys strict_codec key [])
        "logs"
        key
    × Spares memory-IsKeyValue
        (record { cf_store = store })
        (put_with_expiry memory raw_keys strict_codec key [] 300)
        "logs"
        key
writes-Spares_example =
    writes-Spares memory-IsKeyValue (record { cf_store = store }) raw_keys strict_codec "logs" key
      logs_apart key (9 ∷ []) [] (1 ∷ []) 300

-- The value of the second write cannot be serialized.
abbrev operations : List (Op Bytes Bytes)
operations =
    put_op key (5 ∷ [])
    ∷ put_op key []
    ∷ merge_with_expiry_op (8 ∷ []) (1 ∷ []) 300
    ∷ multiget_op (key ∷ (8 ∷ []) ∷ [])
    ∷ delete_op key
    ∷ exists_op key
    ∷ []

default_runs_agree_example :
    (run (on_plain memory raw_keys strict_codec) operations store
      ≡ run (on_pessimistic memory raw_keys strict_codec) operations store)
    × (run (on_optimistic memory raw_keys strict_codec) operations store
        ≡ run (on_pessimistic memory raw_keys strict_codec) operations store)
default_runs_agree_example = default_runs_agree memory raw_keys strict_codec operations store
