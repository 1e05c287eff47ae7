-- ===== src/Batch/Tests.antt =====
-- The theorems of `BatchWriter` at concrete data.
use rocksolid.Base.{ℕ, ◌≡◌, refl, some, List, [], ◌∷◌, Bytes}
use rocksolid.Base.Outcome.{ok, err, on_ok}
use rocksolid.Errors.{text, serialization}
use rocksolid.Serialization.{Codec, KeyType}
use rocksolid.Engine.{Engine}
use rocksolid.Engine.Laws.{assign}
use rocksolid.Engine.Memory.{memory, memory-IsKeyValue, fresh, failing}
use rocksolid.CfStore.{CfStore}
use rocksolid.Batch.{BatchWriter, new, commit, discard}
use rocksolid.Batch.Refusals.{set_value, stage_any, Refused, stage_failed}
use rocksolid.Batch.Staging.{
  BatchOp, set_op, merge_op, delete_op, delete_range_op, stage_all, apply_all,
}
use rocksolid.Batch.Commit.{write_all, commit-stage_all, commit-write_all, consumed}

abbrev byte_keys : KeyType ℕ Bytes
byte_keys = record { as_bytes = λ k. k; decode = λ b. ok b }

abbrev sound : CfStore memory
sound = record { db = fresh; cf_names = "default" ∷ "logs" ∷ []; path = "/tmp/db" }

abbrev chain : List (BatchOp Bytes)
chain =
    set_op (1 ∷ []) (10 ∷ [])
    ∷ merge_op (1 ∷ []) (11 ∷ [])
    ∷ set_op (2 ∷ []) (20 ∷ [])
    ∷ delete_op (2 ∷ [])
    ∷ delete_range_op (3 ∷ []) (9 ∷ [])
    ∷ []

abbrev staged_writer : BatchWriter memory
unfolding stage_all new
staged_writer = (stage_all memory byte_keys chain (new memory sound "logs")).1

staged_ok : (stage_all memory byte_keys chain (new memory sound "logs")).0 ≡ ok tt
unfolding stage_all new
staged_ok = refl

committed : (commit memory (stage_all memory byte_keys chain (new memory sound "logs")).1).0 ≡ ok tt
unfolding commit stage_all new
committed = refl

written_ok : (write_all memory byte_keys "logs" chain sound).0 ≡ ok tt
unfolding write_all
written_ok = refl

merged_value :
    (commit memory (stage_all memory byte_keys chain (new memory sound "logs")).1).1.db.table "logs"
      (1 ∷ [])
    ≡ some (10 ∷ 11 ∷ [])
unfolding commit stage_all new assign rocksolid.Engine.Laws.clear_range
merged_value = refl

commit-stage_all_example :
    memory-IsKeyValue.content
      (commit memory (stage_all memory byte_keys chain (new memory sound "logs")).1).1.db
    ≡ on_ok
        (commit memory (stage_all memory byte_keys chain (new memory sound "logs")).1).0
        (apply_all memory-IsKeyValue byte_keys "logs" chain (memory-IsKeyValue.content fresh))
        (memory-IsKeyValue.content fresh)
commit-stage_all_example = commit-stage_all memory-IsKeyValue byte_keys sound "logs" chain staged_ok

commit-write_all_example :
    memory-IsKeyValue.content
      (commit memory (stage_all memory byte_keys chain (new memory sound "logs")).1).1.db
    ≡ memory-IsKeyValue.content (write_all memory byte_keys "logs" chain sound).1.db
commit-write_all_example =
    commit-write_all memory-IsKeyValue byte_keys sound "logs" chain staged_ok committed written_ok

-- The writer of a database whose writes fail.
abbrev doomed : BatchWriter memory
unfolding new
doomed = new memory (record sound { db = failing }) "logs"

consumed_example :
    ((commit memory doomed).2 ≡ on_ok (commit memory doomed).0 [] (("/tmp/db", "logs") ∷ []))
    × (discard memory doomed ≡ (record sound { db = failing }, []))
unfolding doomed
consumed_example = consumed memory doomed refl

-- Values of which none can be serialized.
abbrev no_codec : Codec ℕ Bytes
no_codec = record { serialize = λ v. err (text "no"); deserialize = λ b. ok b }

abbrev fresh_writer : BatchWriter memory
unfolding new
fresh_writer = new memory sound "logs"

stage_refused :
    (stage_any memory byte_keys no_codec (set_value (1 ∷ []) (2 ∷ [])) fresh_writer).0
    ≡ err (serialization (text "no"))
unfolding stage_any fresh_writer
stage_refused = refl

stage_failed_example :
    ((stage_any memory byte_keys no_codec (set_value (1 ∷ []) (2 ∷ [])) fresh_writer).1
      ≡ fresh_writer)
    × Refused memory byte_keys no_codec fresh_writer
        (serialization (text "no"))
        (set_value (1 ∷ []) (2 ∷ []))
stage_failed_example =
    stage_failed memory byte_keys no_codec fresh_writer (serialization (text "no"))
      (set_value (1 ∷ []) (2 ∷ [])) stage_refused
