-- ===== src/Worker/Errors/Eviction.antt =====
-- What the log of routing errors tells of, and which entry makes room.
use xstream_roll.Shared.{
  ℕ, ◌+◌, ◌≤◌, ◌<◌, ◌≡◌, refl, inl, inr, ◌⊎◌, String, true, false, Option, none, some, List, [],
  ◌∷◌, ◌++◌, arith, ltb, leb, Bool-cases, ◌==◌, eq_iff, subst, ap, string_key,
}
use xstream_roll.Shared.Dict
use xstream_roll.Shared.Dict.{Dict}
use xstream_roll.Worker.{DedupeState, ErrorLine, max_tracked_error_keys, oldest, evict, existing_of}

-- The repeats that the printed lines tell of, and those that are counted and not yet told of.
unfoldable pub told : List ErrorLine → ℕ
told [] = 0
told (l ∷ ls) = l.suppressed + told ls

unfoldable pub untold : Dict String DedupeState → ℕ
untold [] = 0
untold ((k, v) ∷ m) = v.suppressed_batch + untold m

pub told-append : (xs ys : List ErrorLine) → told (xs ++ ys) ≡ told xs + told ys
unfolding told
told-append [] ys = omega arith
told-append (x ∷ xs) ys = omega (arith, told-append xs ys)

pub untold-delete :
    (k : String) (m : Dict String DedupeState)
    → Dict.Distinct m
    → untold (Dict.delete k m) + (existing_of k m).suppressed_batch ≡ untold m
unfolding untold Dict.delete Dict.get
untold-delete k [] d = refl
untold-delete k ((j, v) ∷ m) d = elim (Bool-cases (j == k)) [
  | inl h ↦
      let same : j ≡ k = ground (arith, eq_iff j k) in
      let gone : Dict.get k m ≡ none = subst (λ x. Dict.get x m ≡ none) same d.0 in
      let found : existing_of k ((j, v) ∷ m) ≡ v = rw (h, existing_of) refl in
      rw (h, Dict.delete-missing k m gone)
        (omega (arith, ap (λ (x : DedupeState). x.suppressed_batch) found))
  | inr h ↦
      let passed : existing_of k ((j, v) ∷ m) ≡ existing_of k m = rw (h, existing_of) refl in
      rw h
        (omega (arith, untold-delete k m d.1, ap (λ (x : DedupeState). x.suppressed_batch) passed))
]

pub untold-set_new :
    (k : String) (v : DedupeState) (m : Dict String DedupeState)
    → Dict.get k m ≡ none
    → untold (Dict.set k v m) ≡ untold m + v.suppressed_batch
unfolding untold Dict.set Dict.get
untold-set_new k v [] h = omega arith
untold-set_new k v ((j, w) ∷ m) h = ground (arith, untold-set_new k v m)

-- The entry that is found is among those that were looked at, or the best so far.
pub oldest-found :
    (m : Dict String DedupeState) (best : Option (String × ℕ)) (b : String × ℕ)
    → oldest best m ≡ some b
    → (best ≡ some b) ⊎ (Dict.has b.0 m ≡ true)
unfolding oldest Dict.get
oldest-found [] best b e = inl e
oldest-found ((k, v) ∷ m) none b e = elim (oldest-found m (some (k, v.last_logged_at_ms)) b e) [
  | inl same ↦ inr (ground (arith, same, eq_iff k b.0))
  | inr there ↦ inr (ground (arith, there))
]
oldest-found ((k, v) ∷ m) (some a) b e = elim (Bool-cases (ltb v.last_logged_at_ms a.1)) [
  | inl h ↦ elim (oldest-found m (some (k, v.last_logged_at_ms)) b (ground (arith, e, h))) [
    | inl same ↦ inr (ground (arith, same, eq_iff k b.0))
    | inr there ↦ inr (ground (arith, there))
  ]
  | inr h ↦ elim (oldest-found m (some a) b (ground (arith, e, h))) [
    | inl same ↦ inl same
    | inr there ↦ inr (ground (arith, there))
  ]
]

pub oldest-some :
    (m : Dict String DedupeState) (a : String × ℕ) → (b : String × ℕ) × (oldest (some a) m ≡ some b)
unfolding oldest
oldest-some [] a = (a, refl)
oldest-some ((k, v) ∷ m) a = elim (Bool-cases (ltb v.last_logged_at_ms a.1)) [
  | inl h ↦ rw h (oldest-some m (k, v.last_logged_at_ms))
  | inr h ↦ rw h (oldest-some m a)
]

pub oldest-none :
    (m : Dict String DedupeState) → 1 ≤ Dict.size m → (b : String × ℕ) × (oldest none m ≡ some b)
unfolding oldest
oldest-none [] h = absurd (omega arith)
oldest-none ((k, v) ∷ m) h = oldest-some m (k, v.last_logged_at_ms)

-- The key is there, or there is room for it, or there is not and one entry goes.
pub evict-cases :
    (key : String) (m : Dict String DedupeState)
    → ((evict key m ≡ m) × ((Dict.has key m ≡ true) ⊎ (Dict.size m < max_tracked_error_keys)))
      ⊎ ((b : String) × (evict key m ≡ Dict.delete b m)
          × (Dict.has b m ≡ true)
          × (Dict.has key m ≡ false)
          × (max_tracked_error_keys ≤ Dict.size m))
unfolding evict
evict-cases key m = elim (Bool-cases (Dict.has key m)) [
  | inl there ↦ inl (rw there refl, inl there)
  | inr missing ↦ elim (Bool-cases (leb max_tracked_error_keys (Dict.size m))) [
    | inr room ↦ inl (rw (missing, room) refl, inr (ground arith))
    | inl full ↦
        let many : max_tracked_error_keys ≤ Dict.size m = ground arith in
        let (b, found) = oldest-none m (omega arith) in
        inr (
          b.0,
          rw (missing, full, found) refl,
          elim (oldest-found m none b found) [
            | inl nothing ↦ ground (arith, nothing)
            | inr there ↦ there
          ],
          missing,
          many,
        )
  ]
]
