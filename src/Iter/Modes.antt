-- ===== src/Iter/Modes.antt =====
-- What the choice of the raw iterator and the prefix check of `execute` guarantee.
use rocksolid.Base.{
  ℕ, ◌+◌, ◌≡◌, refl, arith, Bool, true, Option, none, some, List, [], ◌∷◌, Bytes, every,
  starts_with,
}
use rocksolid.Base.Outcome.{ok, err}
use rocksolid.Errors.{StoreResult}
use rocksolid.Serialization.{KeyType}
use rocksolid.Engine.{Item, IteratorMode}
use rocksolid.Iter.{ControlFn, IterConfig, keep, ask}
use rocksolid.Iter.Helpers.{effective_control, execute}
use rocksolid.Iter.Prefix.{has_prefix}
use rocksolid.Iter.Collect.{gather, as_is}

-- Whether all that a collection yielded passes the test; an error yields nothing.
abbrev pub every_yielded :
    {E : Type 0} → (Bytes × Bytes → Bool) → StoreResult E (List (Bytes × Bytes)) → Bool
every_yielded test (ok xs) = every test xs
every_yielded test (err e) = true

effective_keeps :
    {S : Type 0} (p : Bytes) (control : Option (ControlFn S)) (k v : Bytes) (n : ℕ) (s : S)
    → (ask (effective_control (some p) control) k v n s).0 ≡ keep
    → starts_with k p ≡ true
unfolding ask effective_control
effective_keeps p none k v n s h = ground arith
effective_keeps p (some user) k v n s h = ground arith

module _ {E S : Type 0} (p : Bytes) (control : Option (ControlFn S)) where
  -- Whatever the raw iterator yields and whatever the user's control function decides, an iteration
  -- with a prefix yields only keys that start with it.
  pub gather-has_prefix :
      (items : List (Item E)) (n : ℕ) (s : S)
      → every_yielded (has_prefix p) (gather (effective_control (some p) control) as_is items n s).0
        ≡ true
  unfolding gather every
  gather-has_prefix [] n s = refl
  gather-has_prefix (err e ∷ rest) n s = refl
  gather-has_prefix (ok (k, v) ∷ rest) n s =
      let s' = (ask (effective_control (some p) control) k v n s).1 in
      ground (
        arith,
        effective_keeps p control k v n s,
        gather-has_prefix rest n s',
        gather-has_prefix rest (n + 1) s',
      )

module _ {E S K Out : Type 0} (kt : KeyType E K)
    (general : IteratorMode → StoreResult E (List (Item E)))
    (prefixed : Bytes → StoreResult E (List (Item E))) where
  -- For a prefix with no start key the direction of the configuration has no effect: the iteration is
  -- that of the prefix iterator either way.
  pub reverse_ignored :
      (config : IterConfig E S K Out) (s : S) (p : K) (b : Bool)
      → config.prefix ≡ some p
      → config.start ≡ none
      → execute kt general prefixed (record config { reverse = b }) s
        ≡ execute kt general prefixed config s
  unfolding execute
  reverse_ignored config s p b hp hs = rw (hp, hs)
