-- ===== src/Transactional/Tests.antt =====
-- The theorems on transactional stores at concrete data, over the engine in memory.
use rocksolid.Base.{ℕ, ◌≡◌, refl, none, [], ◌∷◌, Bytes, false}
use rocksolid.Base.Outcome.{ok, err}
use rocksolid.Errors.{other, text}
use rocksolid.Serialization.{Codec, KeyType}
use rocksolid.Engine.Memory.{memory, fresh}
use rocksolid.Iter.{ControlFn, IterConfig, new_raw, keep}
use rocksolid.CfStore
use rocksolid.CfStore.{CfStore}
use rocksolid.CfStore.Write
use rocksolid.Transactional
use rocksolid.Transactional.Commits
use rocksolid.Transactional.Agree.{writes-CfStore}

abbrev bytes_keys : KeyType ℕ Bytes
bytes_keys = record { as_bytes = λ k. k; decode = λ b. ok b }

abbrev bytes_codec : Codec ℕ Bytes
bytes_codec = record { serialize = λ v. ok v; deserialize = λ b. ok b }

abbrev shared : CfStore memory
shared = record { db = fresh; cf_names = "default" ∷ "logs" ∷ []; path = "/tmp/txn" }

same_handle :
    Transactional.get_cf_handle memory shared "logs" ≡ CfStore.get_cf_handle memory shared "logs"
unfolding Transactional.get_cf_handle CfStore.get_cf_handle
same_handle = refl

writes-CfStore_example :
    (Commits.put memory bytes_keys bytes_codec "logs" (1 ∷ []) (2 ∷ []) shared
      ≡ Write.put memory bytes_keys bytes_codec "logs" (1 ∷ []) (2 ∷ []) shared)
    × (Commits.put_raw memory bytes_keys "logs" (1 ∷ []) (3 ∷ []) shared
        ≡ Write.put_raw memory bytes_keys "logs" (1 ∷ []) (3 ∷ []) shared)
    × (Commits.put_with_expiry memory bytes_keys bytes_codec "logs" (1 ∷ []) (2 ∷ []) 9 shared
        ≡ Write.put_with_expiry memory bytes_keys bytes_codec "logs" (1 ∷ []) (2 ∷ []) 9 shared)
    × (Commits.delete memory bytes_keys "logs" (1 ∷ []) shared
        ≡ Write.delete memory bytes_keys "logs" (1 ∷ []) shared)
    × (Commits.merge memory bytes_keys bytes_codec "logs" (1 ∷ []) (2 ∷ []) shared
        ≡ Write.merge memory bytes_keys bytes_codec "logs" (1 ∷ []) (2 ∷ []) shared)
    × (Commits.merge_raw memory bytes_keys "logs" (1 ∷ []) (3 ∷ []) shared
        ≡ Write.merge_raw memory bytes_keys "logs" (1 ∷ []) (3 ∷ []) shared)
    × (Commits.merge_with_expiry memory bytes_keys bytes_codec "logs" (1 ∷ []) (2 ∷ []) 9 shared
        ≡ Write.merge_with_expiry memory bytes_keys bytes_codec "logs" (1 ∷ []) (2 ∷ []) 9 shared)
    × (Commits.delete_range memory bytes_keys "logs" (1 ∷ []) (4 ∷ []) shared
        ≡ (err (other (text "delete_range is not supported on a transactional store")), shared))
writes-CfStore_example =
    writes-CfStore memory bytes_keys shared "logs" same_handle bytes_codec (1 ∷ []) (4 ∷ [])
      (3 ∷ []) (2 ∷ []) 9

abbrev every_item : ControlFn (Unit {0})
every_item k v n s = (keep, s)

abbrev over_logs : IterConfig ℕ (Unit {0}) Bytes (Bytes × Bytes)
unfolding new_raw
over_logs = new_raw "logs" none none false none

on_logs : over_logs.cf_name ≡ "logs"
unfolding over_logs
on_logs = refl
