-- ===== src/Shared/Dict.antt =====
-- A JavaScript `Map`, as its entries in insertion order. `set` on a key that is there keeps its
-- place; `delete` on a key that is not there changes nothing.
use Prim.Native.Nat.{ℕ, suc, ◌≤◌}
use mathlib.Core.Path.{◌≡◌, refl, subst, sym}
use mathlib.Core.Logic.{◌≢◌, inl, inr}
use mathlib.Core.Bool.{Bool, true}
use mathlib.Core.Option.{Option, none, some}
use mathlib.Core.List.{List, [], ◌∷◌, map}
use native.Mathlib.Omega.{arith}
use xstream_roll.Shared.Tests.{if◌then◌else◌, is_some, Bool-cases}
use xstream_roll.Shared.Lists.{length, filter, All}
use xstream_roll.Shared.Keys.{Key, ◌==◌}

abbrev pub Dict {ℓ κ} : Type ℓ → Type κ → Type (ℓ ⊔ κ)
Dict K V = List (K × V)

module _ {ℓ κ} {K : Type ℓ} {V : Type κ} ⦃e : Key K⦄ where
  unfoldable pub get : K → Dict K V → Option V
  get k [] = none
  get k ((j, v) ∷ m) = if j == k then some v else get k m

  unfoldable pub set : K → V → Dict K V → Dict K V
  set k v [] = (k, v) ∷ []
  set k v ((j, w) ∷ m) = if j == k then (j, v) ∷ m else (j, w) ∷ set k v m

  unfoldable pub delete : K → Dict K V → Dict K V
  delete k [] = []
  delete k ((j, v) ∷ m) = if j == k then delete k m else (j, v) ∷ delete k m

  abbrev pub has : K → Dict K V → Bool
  has k m = is_some (get k m)

  abbrev pub size : Dict K V → ℕ
  size m = length m

  -- Keeps the entries whose value passes the test.
  abbrev pub keep : (V → Bool) → Dict K V → Dict K V
  keep p m = filter (λ b. p b.1) m

  abbrev pub values : Dict K V → List V
  values m = map (λ b. b.1) m

  pub get-set :
      (j k : K) (v : V) (m : Dict K V) → get j (set k v m) ≡ (if k == j then some v else get j m)
  unfolding get set
  get-set j k v [] = refl
  get-set j k v ((i, w) ∷ m) =
      ground (arith, e.same_key_iff k j, e.same_key_iff i k, e.same_key_iff i j, get-set j k v m)

  pub get-delete :
      (j k : K) (m : Dict K V) → get j (delete k m) ≡ (if k == j then none else get j m)
  unfolding get delete
  get-delete j k [] = ground arith
  get-delete j k ((i, w) ∷ m) =
      ground (arith, e.same_key_iff k j, e.same_key_iff i k, e.same_key_iff i j, get-delete j k m)

  pub get-set_self : (k : K) (v : V) (m : Dict K V) → get k (set k v m) ≡ some v
  get-set_self k v m = ground (arith, get-set k k v m, e.same_key_iff k k)

  pub get-set_ne : (j k : K) (v : V) (m : Dict K V) → k ≢ j → get j (set k v m) ≡ get j m
  get-set_ne j k v m h = ground (arith, get-set j k v m, e.same_key_iff k j)

  pub get-delete_self : (k : K) (m : Dict K V) → get k (delete k m) ≡ none
  get-delete_self k m = ground (arith, get-delete k k m, e.same_key_iff k k)

  pub get-delete_ne : (j k : K) (m : Dict K V) → k ≢ j → get j (delete k m) ≡ get j m
  get-delete_ne j k m h = ground (arith, get-delete j k m, e.same_key_iff k j)

  -- What the test keeps is found as before.
  pub get-keep :
      (k : K) (p : V → Bool) (m : Dict K V) (v : V)
      → get k m ≡ some v
      → p v ≡ true
      → get k (keep p m) ≡ some v
  unfolding get
  get-keep k p [] v h q = h
  get-keep k p ((j, w) ∷ m) v h q = ground (arith, get-keep k p m v)

  pub size-set :
      (k : K) (v : V) (m : Dict K V) → size (set k v m) ≡ (if has k m then size m else suc (size m))
  unfolding get set
  size-set k v [] = refl
  size-set k v ((j, w) ∷ m) = ground (arith, size-set k v m)

  pub size-delete-le : (k : K) (m : Dict K V) → size (delete k m) ≤ size m
  unfolding delete
  size-delete-le k [] = omega arith
  size-delete-le k ((j, w) ∷ m) = ground (arith, size-delete-le k m)

  -- The keys of a map are distinct.
  abbrev pub Distinct : Dict K V → Type κ
  Distinct [] = Unit
  Distinct ((k, v) ∷ m) = (get k m ≡ none) × Distinct m

  pub set-Distinct : (k : K) (v : V) (m : Dict K V) → Distinct m → Distinct (set k v m)
  unfolding get set
  set-Distinct k v [] d = (refl, tt)
  set-Distinct k v ((j, w) ∷ m) d = elim (Bool-cases (j == k)) [
    | inl h ↦ rw h d
    | inr h ↦ rw h (
      ground (arith, h, d.0, get-set j k v m, e.same_key_iff k j, e.same_key_iff j k),
      set-Distinct k v m d.1,
    )
  ]

  pub delete-Distinct : (k : K) (m : Dict K V) → Distinct m → Distinct (delete k m)
  unfolding get delete
  delete-Distinct k [] d = tt
  delete-Distinct k ((j, w) ∷ m) d = elim (Bool-cases (j == k)) [
    | inl h ↦ rw h (delete-Distinct k m d.1)
    | inr h ↦ rw h (ground (arith, d.0, get-delete j k m), delete-Distinct k m d.1)
  ]

  -- What is not there is not deleted.
  pub delete-missing : (k : K) (m : Dict K V) → get k m ≡ none → delete k m ≡ m
  unfolding get delete
  delete-missing k [] h = refl
  delete-missing k ((j, w) ∷ m) h = ground (arith, delete-missing k m)

  pub size-delete :
      (k : K) (m : Dict K V) → Distinct m → has k m ≡ true → suc (size (delete k m)) ≡ size m
  unfolding get delete
  size-delete k [] d h = ground arith
  size-delete k ((j, w) ∷ m) d h = elim (Bool-cases (j == k)) [
    | inl same ↦
        let gone : get k m ≡ none = subst (λ x. get x m ≡ none) ((e.same_key_iff j k).0 same) d.0 in
        rw (same, delete-missing k m gone) refl
    | inr other ↦ rw other (omega (arith, size-delete k m d.1 (ground (arith, h, other))))
  ]

  -- What holds of every entry.
  pub set-All :
      (P : K × V → Type κ) (k : K) (v : V) (m : Dict K V) → P (k, v) → All P m → All P (set k v m)
  unfolding set
  set-All P k v [] p h = (p, tt)
  set-All P k v ((j, w) ∷ m) p h = elim (Bool-cases (j == k)) [
    | inl same ↦ rw same (subst (λ x. P (x, v)) (sym ((e.same_key_iff j k).0 same)) p, h.1)
    | inr other ↦ rw other (h.0, set-All P k v m p h.1)
  ]

  pub delete-All : (P : K × V → Type κ) (k : K) (m : Dict K V) → All P m → All P (delete k m)
  unfolding delete
  delete-All P k [] h = tt
  delete-All P k ((j, w) ∷ m) h = elim (Bool-cases (j == k)) [
    | inl same ↦ rw same (delete-All P k m h.1)
    | inr other ↦ rw other (h.0, delete-All P k m h.1)
  ]

  pub get-All :
      (P : K × V → Type κ) (k : K) (v : V) (m : Dict K V) → All P m → get k m ≡ some v → P (k, v)
  unfolding get
  get-All P k v [] h q = absurd (ground (arith, q))
  get-All P k v ((j, w) ∷ m) h q = elim (Bool-cases (j == k)) [
    | inl same ↦
        let hit : w ≡ v = ground (arith, same, q) in
        subst (λ x. P (x, v)) ((e.same_key_iff j k).0 same) (subst (λ y. P (j, y)) hit h.0)
    | inr other ↦ get-All P k v m h.1 (ground (arith, other, q))
  ]
