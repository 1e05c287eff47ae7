-- ===== src/CfStore/Tests.antt =====
-- The theorems of the store at concrete data, over the engine in memory.
use rocksolid.Base.{◌≡◌, ◌≢◌, refl, arith, none, some, [], ◌∷◌, Bytes, String, ℕ, str_eq_iff}
use rocksolid.Base.Outcome.{ok, err, try_map}
use rocksolid.Errors.{unknown_cf, text, serialization}
use rocksolid.Serialization.{Codec, KeyType, IsRoundTrip, serialize_value}
use rocksolid.Expiry.{get_value}
use rocksolid.Engine.Laws.{assign, clear_range}
use rocksolid.Engine.Memory.{memory, memory-IsKeyValue, fresh, failing}
use rocksolid.CfStore.{
  CfStore, get_raw, get, get_with_expiry, exists, multiget, multiget_raw, multiget_with_expiry,
}
use rocksolid.CfStore.Write.{
  put_raw, put, put_with_expiry, delete, delete_range, merge_raw, merge, merge_with_expiry,
}
use rocksolid.CfStore.Writes.{Does, raw_writes-Does}
use rocksolid.CfStore.Reads.{get-put, get_with_expiry-put_with_expiry}
use rocksolid.CfStore.Unknown.{unknown_family}
use rocksolid.CfStore.Multi.{forgiven, multiget-get_raw}

-- Keys and values that are byte strings already.
abbrev pub raw_keys : KeyType ℕ Bytes
raw_keys = record { as_bytes = λ k. k; decode = λ b. ok b }

abbrev pub raw_codec : Codec ℕ Bytes
raw_codec = record { serialize = λ v. ok v; deserialize = λ b. ok b }

raw_codec-IsRoundTrip : IsRoundTrip raw_codec
raw_codec-IsRoundTrip = record { read_back = λ v b e. ground arith }

abbrev pub store : CfStore memory
store = record { db = fresh; cf_names = "default" ∷ "logs" ∷ []; path = "/tmp/db" }

abbrev key : Bytes
key = 7 ∷ []

abbrev val : Bytes
val = 1 ∷ 2 ∷ []

raw_writes-Does_example :
    Does memory-IsKeyValue
      (put_raw memory raw_keys "logs" key val)
      (assign "logs" key (some val))
      store
    × Does memory-IsKeyValue (delete memory raw_keys "logs" key) (assign "logs" key none) store
    × Does memory-IsKeyValue
        (merge_raw memory raw_keys "logs" key val)
        (λ c. assign "logs" key (memory-IsKeyValue.merged c "logs" key val) c)
        store
    × Does memory-IsKeyValue
        (delete_range memory raw_keys "logs" key (9 ∷ []))
        (clear_range "logs" key (9 ∷ []))
        store
raw_writes-Does_example = raw_writes-Does memory-IsKeyValue raw_keys "logs" key (9 ∷ []) val store

put_ok : (put_raw memory raw_keys "logs" key val store).0 ≡ ok tt
unfolding put_raw
put_ok = refl

put_then_get :
    get_raw memory raw_keys (put_raw memory raw_keys "logs" key val store).1 "logs" key
    ≡ ok (some val)
unfolding put_raw get_raw assign
put_then_get = refl

typed_ok : (put memory raw_keys raw_codec "logs" key val store).0 ≡ ok tt
unfolding put
typed_ok = refl

typed_get :
    get_raw memory raw_keys (put memory raw_keys raw_codec "logs" key val store).1 "logs" key
    ≡ ok (some val)
unfolding put get_raw assign
typed_get = refl

get-put_example :
    get memory raw_keys raw_codec (put memory raw_keys raw_codec "logs" key val store).1 "logs" key
    ≡ ok (some val)
get-put_example =
    get-put raw_keys memory-IsKeyValue raw_codec raw_codec-IsRoundTrip store "logs" key val
      (some val) typed_ok typed_get

abbrev stored : Bytes
stored = 0 ∷ 0 ∷ 0 ∷ 0 ∷ 0 ∷ 0 ∷ 1 ∷ 44 ∷ 1 ∷ 2 ∷ []

expiry_ok : (put_with_expiry memory raw_keys raw_codec "default" key val 300 store).0 ≡ ok tt
unfolding put_with_expiry
expiry_ok = refl

expiry_get :
    get_raw memory raw_keys
      (put_with_expiry memory raw_keys raw_codec "default" key val 300 store).1
      "default"
      key
    ≡ ok (some stored)
unfolding put_with_expiry get_raw assign
expiry_get = refl

get_with_expiry-put_with_expiry_example :
    (b : Bytes) × (get_with_expiry memory raw_keys
        (put_with_expiry memory raw_keys raw_codec "default" key val 300 store).1
        "default"
        key
      ≡ ok (some (record { expire_time = 300; raw_value = b })))
    × (get_value raw_codec (record { expire_time = 300; raw_value = b }) ≡ ok val)
get_with_expiry-put_with_expiry_example =
    get_with_expiry-put_with_expiry raw_keys memory-IsKeyValue raw_codec raw_codec-IsRoundTrip store
      "default" key val 300 (some stored) (omega arith) expiry_ok expiry_get

metrics-ne-default : ◌≢◌ {A = String} "metrics" "default"
metrics-ne-default p = ground (arith, (str_eq_iff "metrics" "default").1 p)

-- A codec that refuses every value.
abbrev no_codec : Codec ℕ Bytes
no_codec = record { serialize = λ v. err (text "no"); deserialize = λ b. ok b }

unknown_family_example :
    (get_raw memory raw_keys store "metrics" key ≡ err (unknown_cf "metrics"))
    × (get memory raw_keys no_codec store "metrics" key ≡ err (unknown_cf "metrics"))
    × (get_with_expiry memory raw_keys store "metrics" key ≡ err (unknown_cf "metrics"))
    × (exists memory raw_keys store "metrics" key ≡ err (unknown_cf "metrics"))
    × (multiget_raw memory raw_keys store "metrics" (key ∷ val ∷ []) ≡ err (unknown_cf "metrics"))
    × (multiget memory raw_keys no_codec store "metrics" (key ∷ val ∷ [])
        ≡ err (unknown_cf "metrics"))
    × (multiget_with_expiry memory raw_keys store "metrics" (key ∷ val ∷ [])
        ≡ err (unknown_cf "metrics"))
    × (put_raw memory raw_keys "metrics" key val store ≡ (err (unknown_cf "metrics"), store))
    × (delete memory raw_keys "metrics" key store ≡ (err (unknown_cf "metrics"), store))
    × (merge_raw memory raw_keys "metrics" key val store ≡ (err (unknown_cf "metrics"), store))
    × (delete_range memory raw_keys "metrics" key key store ≡ (err (unknown_cf "metrics"), store))
    × (put memory raw_keys no_codec "metrics" key val store
        ≡ (err (serialization (text "no")), store))
    × (merge memory raw_keys no_codec "metrics" key val store
        ≡ (err (serialization (text "no")), store))
    × (put_with_expiry memory raw_keys no_codec "metrics" key val 300 store
        ≡ (err (serialization (text "no")), store))
    × (merge_with_expiry memory raw_keys no_codec "metrics" key val 300 store
        ≡ (err (serialization (text "no")), store))
unfolding serialize_value
unknown_family_example =
    unknown_family raw_keys no_codec store "metrics" metrics-ne-default refl key key (val ∷ []) val
      val 300

-- A database that fails every read: `multiget` reports an absent key.
abbrev failing_store : CfStore memory
failing_store = record store { db = failing }

multiget-get_raw_example :
    (multiget_raw memory raw_keys failing_store "logs" (key ∷ [])
      ≡ try_map (get_raw memory raw_keys failing_store "logs") (key ∷ []))
    × (multiget memory raw_keys raw_codec failing_store "logs" (key ∷ [])
        ≡ try_map
            (λ k. forgiven raw_codec (get_raw memory raw_keys failing_store "logs" k))
            (key ∷ []))
multiget-get_raw_example =
    multiget-get_raw raw_keys memory-IsKeyValue raw_codec failing_store "logs" (key ∷ [])

errors_swallowed :
    multiget memory raw_keys raw_codec failing_store "logs" (key ∷ []) ≡ ok (none ∷ [])
unfolding multiget
errors_swallowed = refl
