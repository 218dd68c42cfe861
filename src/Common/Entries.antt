-- ===== src/Common/Entries.antt =====
-- The entries of an association list under one key, and what insert and erase do to them.
use Prim.Native.Nat.{ℕ, ◌+◌, ◌<◌}
use mathlib.Core.Path.{◌≡◌, refl}
use mathlib.Core.Bool.{Bool, true, false}
use mathlib.Core.List.{List, [], ◌∷◌, ◌++◌}
use mathlib.Core.Option.{Option, none, some}
use native.Mathlib.Omega.{arith}
use server_application.Common.Tests.{Key, if◌then◌else◌}
use server_application.Common.Lists.{select, length}
use server_application.Common.Maps.{Map, lookup, insert, erase}

pub select-append {ℓ} :
    {A : Type ℓ} (p : A → Bool) (xs ys : List A) → select p (xs ++ ys) ≡ select p xs ++ select p ys
select-append p [] ys = refl
select-append p (x ∷ xs) ys = ground (arith, select-append p xs ys)

pub same_self : {K : Type 0} ⦃key : Key K⦄ (k : K) → key.same k k ≡ true
same_self ⦃key⦄ k = (key.same_iff k k).1 refl

module _ {K V : Type 0} ⦃key : Key K⦄ where
  abbrev pub has_key : K → K × V → Bool
  has_key j e = key.same (e.0) j

  -- What a map that holds each key once has for a key.
  unfoldable pub entry_of : K → Option V → Map K V
  entry_of k none = []
  entry_of k (some v) = (k, v) ∷ []

  pub select-insert_other :
      (k j : K) (v : V) (m : Map K V)
      → key.same k j ≡ false
      → select (has_key j) (insert k v m) ≡ select (has_key j) m
  unfolding insert
  select-insert_other k j v [] h = rw h
  select-insert_other k j v ((i, w) ∷ m) h =
      ground
        (arith, select-insert_other k j v m, key.same_iff i k, key.same_iff i j, key.same_iff k j)

  pub select-insert_self :
      (k : K) (v : V) (m : Map K V)
      → select (has_key k) m ≡ entry_of k (lookup k m)
      → select (has_key k) (insert k v m) ≡ (k, v) ∷ []
  unfolding insert lookup entry_of
  select-insert_self k v [] h = rw (same_self k)
  select-insert_self k v ((i, w) ∷ m) h =
      ground (arith, select-insert_self k v m, key.same_iff i k, same_self k)

  pub select-erase :
      (k j : K) (m : Map K V)
      → select (has_key j) (erase k m) ≡ (if key.same k j then [] else select (has_key j) m)
  unfolding erase
  select-erase k j [] = ground arith
  select-erase k j ((i, w) ∷ m) =
      ground (arith, select-erase k j m, key.same_iff i k, key.same_iff i j, key.same_iff k j)

  -- How often a key stands in a map.
  abbrev pub present : K → Map K V → ℕ
  present k m = length (select (has_key k) m)

  pub lookup_absent : (k : K) (m : Map K V) → present k m ≡ 0 → lookup k m ≡ none
  unfolding lookup
  lookup_absent k [] h = refl
  lookup_absent k ((i, w) ∷ m) h = ground (arith, lookup_absent k m)

  pub found_key : (k : K) (v : V) (m : Map K V) → lookup k m ≡ some v → 0 < present k m
  unfolding lookup
  found_key k v [] h = ground arith
  found_key k v ((i, w) ∷ m) h = ground (arith, found_key k v m)

  -- A key that is not there is added once; another stays as often.
  pub present-insert_new :
      (k j : K) (v : V) (m : Map K V)
      → present k m ≡ 0
      → present j (insert k v m) ≡ (if key.same k j then 1 else present j m)
  unfolding insert
  present-insert_new k j v [] h = ground arith
  present-insert_new k j v ((i, w) ∷ m) h =
      ground
        (arith, present-insert_new k j v m, key.same_iff i k, key.same_iff i j, key.same_iff k j)

  -- A key that is there stays as often.
  pub present-insert_old :
      (k j : K) (v w : V) (m : Map K V)
      → lookup k m ≡ some w
      → (present j (insert k v m) ≡ present j m) × (length (insert k v m) ≡ length m)
  unfolding insert lookup
  present-insert_old k j v w [] h = ground arith
  present-insert_old k j v w ((i, u) ∷ m) h =
      ground
        (arith, present-insert_old k j v w m, key.same_iff i k, key.same_iff i j, key.same_iff k j)

  pub present-erase :
      (k j : K) (m : Map K V) → present j (erase k m) ≡ (if key.same k j then 0 else present j m)
  present-erase k j m = rw (select-erase k j m) (ground arith)

  pub length-erase : (k : K) (m : Map K V) → length (erase k m) + present k m ≡ length m
  unfolding erase
  length-erase k [] = refl
  length-erase k ((i, w) ∷ m) = ground (arith, length-erase k m)
