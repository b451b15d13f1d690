-- ===== src/Notifications/Sweep.antt =====
-- What the sweep of the expired notifications deletes, and that it ends.
use xstream_roll.Shared.{
  ℕ, zero, suc, ◌+◌, ◌≤◌, ◌<◌, ◌≡◌, refl, ap, ◌∙◌, inl, inr, not, some, [], ◌∷◌, arith, ltb,
  Bool-cases, same_number_iff, ◌==◌, number_key,
}
use xstream_roll.Shared.Dict
use xstream_roll.Shared.Dict.{Dict}
use xstream_roll.Notifications.{
  Notification, NotificationsRepository, expiry_sweep_batch_size, delete_expired_batch, sweep_loop,
  sweep_expired,
}

-- Those that are not past their time at `now`.
abbrev pub alive : ℕ → Dict ℕ Notification → Dict ℕ Notification
alive now m = Dict.keep (λ n. not (ltb n.expires_at now)) m

batch-size :
    (m : Dict ℕ Notification) (limit now : ℕ)
    → (delete_expired_batch limit now m).0 + Dict.size (delete_expired_batch limit now m).1
      ≡ Dict.size m
unfolding delete_expired_batch
batch-size [] limit now = omega arith
batch-size (b ∷ m) zero now = omega arith
batch-size (b ∷ m) (suc limit) now =
    ground (arith, batch-size m limit now, batch-size m (suc limit) now)

batch-alive :
    (m : Dict ℕ Notification) (limit now later : ℕ)
    → now ≤ later
    → alive later (delete_expired_batch limit now m).1 ≡ alive later m
unfolding delete_expired_batch
batch-alive [] limit now later h = refl
batch-alive (b ∷ m) zero now later h = refl
batch-alive (b ∷ m) (suc limit) now later h =
    ground (arith, batch-alive m limit now later h, batch-alive m (suc limit) now later h)

-- A batch that is not full leaves none that is past its time.
batch-done :
    (m : Dict ℕ Notification) (limit now : ℕ)
    → (delete_expired_batch limit now m).0 < limit
    → (delete_expired_batch limit now m).1 ≡ alive now m
unfolding delete_expired_batch
batch-done [] limit now h = refl
batch-done (b ∷ m) zero now h = absurd (omega arith)
batch-done (b ∷ m) (suc limit) now h =
    ground (arith, batch-done m limit now, batch-done m (suc limit) now)

batch-limit :
    (m : Dict ℕ Notification) (limit now : ℕ) → (delete_expired_batch limit now m).0 ≤ limit
unfolding delete_expired_batch
batch-limit [] limit now = omega arith
batch-limit (b ∷ m) zero now = omega arith
batch-limit (b ∷ m) (suc limit) now =
    ground (arith, batch-limit m limit now, batch-limit m (suc limit) now)

-- The clock does not run backwards from one round to the next.
abbrev pub IsSteady : (ℕ → ℕ) → Type 0
IsSteady clock = (i : ℕ) → clock i ≤ clock (suc i)

steady-le : (clock : ℕ → ℕ) (j i : ℕ) → IsSteady clock → i ≤ j → clock i ≤ clock j
steady-le clock zero i steady h =
    let same : i ≡ 0 = omega arith in omega (arith, ap (λ n. clock n) same)
steady-le clock (suc j) i steady h = elim (Bool-cases (ltb j i)) [
  | inl last ↦ let same : i ≡ suc j = ground arith in omega (arith, ap (λ n. clock n) same)
  | inr before ↦ omega (arith, steady-le clock j i steady (ground arith), steady j)
]

sweep_loop-alive :
    (fuel : ℕ) (clock : ℕ → ℕ) (round total : ℕ) (m : Dict ℕ Notification)
    → IsSteady clock
    → Dict.size m < fuel
    → (last deleted : ℕ) × (sweep_loop fuel clock round total m
        ≡ some (total + deleted, alive (clock last) m))
      × (round ≤ last)
      × (deleted + Dict.size (alive (clock last) m) ≡ Dict.size m)
unfolding sweep_loop
sweep_loop-alive zero clock round total m steady h = absurd (omega arith)
sweep_loop-alive (suc fuel) clock round total m steady h =
    let (d, m') = delete_expired_batch expiry_sweep_batch_size (clock round) m in
    let sizes = batch-size m expiry_sweep_batch_size (clock round) in
    elim (Bool-cases (d == expiry_sweep_batch_size)) [
      | inr short ↦
          let done = batch-done m expiry_sweep_batch_size (clock round) (
            ground (
              arith,
              batch-limit m expiry_sweep_batch_size (clock round),
              same_number_iff d expiry_sweep_batch_size,
            )) in
          (
            round,
            d,
            rw (short, done) refl,
            omega arith,
            omega (arith, sizes, ap (λ (x : Dict ℕ Notification). Dict.size x) done),
          )
      | inl full ↦
          let five_hundred : d ≡ expiry_sweep_batch_size = (same_number_iff d 500).0 full in
          let (last, more, ends, later, sum) =
            sweep_loop-alive fuel clock (suc round) (total + d) m' steady (omega arith) in
          let same =
            batch-alive m expiry_sweep_batch_size (clock round) (clock last)
              (steady-le clock last round steady (omega arith)) in
          let regroup : total + d + more ≡ total + (d + more) = omega arith in
          (
            last,
            d + more,
            rw full (ends ∙ λ i. some (regroup i, same i)),
            omega arith,
            omega (arith, sizes, sum, ap (λ (x : Dict ℕ Notification). Dict.size x) same),
          )
    ]

-- The sweep ends. It leaves, in their order, the notifications that are not past their time when its
-- last round looks at the clock, and no other, and counts those that it has deleted, if the clock does
-- not run backwards meanwhile.
pub sweep_expired-alive :
    (r : NotificationsRepository) (clock : ℕ → ℕ)
    → IsSteady clock
    → (last deleted : ℕ) × (sweep_expired r clock
        ≡ some (deleted, record r { by_id = alive (clock last) r.by_id }))
      × (deleted + Dict.size (alive (clock last) r.by_id) ≡ Dict.size r.by_id)
unfolding sweep_expired
sweep_expired-alive r clock steady =
    let (last, deleted, ends, later, sum) =
      sweep_loop-alive (suc (Dict.size r.by_id)) clock 0 0 r.by_id steady (omega arith) in
    let start : 0 + deleted ≡ deleted = omega arith in
    let swept = record r { by_id = alive (clock last) r.by_id } in
    (last, deleted, rw (ends, sweep_expired) (ap (λ n. some (n, swept)) start), sum)
