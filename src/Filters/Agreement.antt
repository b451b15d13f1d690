-- ===== src/Filters/Agreement.antt =====
-- The filters of the workers agree with the hash.
use xstream_roll.Shared.{
  ◌≡◌, refl, ap, sym, ◌∙◌, inl, inr, subst, String, some, List, [], ◌∷◌, ◌++◌, arith, ◌==◌,
  string_key, Bool-cases, Option-cases,
}
use xstream_roll.Shared.Dict
use xstream_roll.Shared.Dict.{Dict}
use xstream_roll.Session.Event.{StreamEvent}
use xstream_roll.Filters.{
  FilterChange, Configs, apply_change, allow, Worker, Cluster, Call, starts, changes, delivers,
  reconciles, create, join, start, change_locally, step, run, change_config, deliver, reconcile,
}
use xstream_roll.Filters.Settling.{
  settled, after, write_hash-get, settled-append, merge-get, publish-get, after-settled,
  merge-settled, after-twice,
}

abbrev IsInSync : Cluster → Type 0
IsInSync c =
    (name : String) (w : Worker) (s : String)
    → Dict.get name c.workers ≡ some w
    → Dict.get s (settled w.configs w.inbox) ≡ Dict.get s c.hash

set-each :
    (P : Worker → Type 0) (ws : Dict String Worker) (name : String) (w : Worker)
    → ((other : String) (x : Worker) → Dict.get other ws ≡ some x → P x)
    → P w
    → (other : String) (x : Worker) → Dict.get other (Dict.set name w ws) ≡ some x
    → P x
set-each P ws name w v good other x h = elim (Bool-cases (name == other)) [
  | inl hit ↦ subst P (ground (arith, Dict.get-set other name w ws)) good
  | inr miss ↦ v other x (ground (arith, Dict.get-set other name w ws))
]

-- Putting in a worker that is in step with the hash.
set-IsInSync :
    (c : Cluster) (name : String) (w : Worker)
    → IsInSync c
    → ((s : String) → Dict.get s (settled w.configs w.inbox) ≡ Dict.get s c.hash)
    → IsInSync (record c { workers = Dict.set name w c.workers })
set-IsInSync c name w v good other x s h =
    set-each (λ y. Dict.get s (settled y.configs y.inbox) ≡ Dict.get s c.hash) c.workers name w
      (λ n y e. v n y s e) (good s) other x h

join-IsInSync : (c : Cluster) (name : String) → IsInSync c → IsInSync (join c name [])
unfolding join settled Dict.get
join-IsInSync c name v = set-IsInSync c name _ v (λ s. ground (arith, merge-get c.hash [] s))

deliver-IsInSync : (c : Cluster) (name : String) → IsInSync c → IsInSync (deliver c name)
unfolding deliver settled
deliver-IsInSync c name v = elim (Option-cases (Dict.get name c.workers)) [
  | inl e ↦ rw (e, deliver) v
  | inr (w, e) ↦ go w e w.inbox refl
]
  where
    go :
        (w : Worker)
        → Dict.get name c.workers ≡ some w
        → (inbox : List FilterChange) → w.inbox ≡ inbox
        → IsInSync (deliver c name)
    go w e [] f = rw (e, deliver) (rw f v)
    go w e (m ∷ more) f =
        rw (e, deliver)
          (rw f (
            set-IsInSync c name (record { configs = apply_change w.configs m; inbox = more }) v
              (λ s.
                subst (λ q. Dict.get s (settled w.configs q) ≡ Dict.get s c.hash) f
                  (v name w s e))))

reconcile-IsInSync : (c : Cluster) (name : String) → IsInSync c → IsInSync (reconcile c name)
unfolding reconcile
reconcile-IsInSync c name v = elim (Option-cases (Dict.get name c.workers)) [
  | inl e ↦ rw (e, reconcile) v
  | inr (w, e) ↦
      rw (e, reconcile)
        (set-IsInSync c name _ v (λ s. merge-settled w.inbox w.configs c.hash s (v name w s e)))
]

-- Once the worker has changed its own configs, the workers are in step up to that change.
change_locally-after :
    (c : Cluster) (name : String) (change : FilterChange) (s : String)
    → IsInSync c
    → (other : String) (x : Worker) → Dict.get other (change_locally c name change).workers ≡ some x
    → after change s (Dict.get s (settled x.configs x.inbox)) ≡ after change s (Dict.get s c.hash)
unfolding change_locally join settled
change_locally-after c name change s v = elim (Option-cases (Dict.get name c.workers)) [
  | inl e ↦
      rw (e, change_locally)
        (set-each
          (λ y.
            after change s (Dict.get s (settled y.configs y.inbox))
            ≡ after change s (Dict.get s c.hash))
          c.workers name _ (λ n y f. ap (λ o. after change s o) (v n y s f))
          (ground (arith, merge-get c.hash (apply_change [] change) s, after-twice change s)))
  | inr (w, e) ↦
      rw (e, change_locally)
        (set-each
          (λ y.
            after change s (Dict.get s (settled y.configs y.inbox))
            ≡ after change s (Dict.get s c.hash))
          c.workers name _ (λ n y f. ap (λ o. after change s o) (v n y s f))
          (after-settled w.inbox w.configs change s ∙ ap (λ o. after change s o) (v name w s e)))
]

change_locally-hash :
    (c : Cluster) (name : String) (change : FilterChange)
    → (change_locally c name change).hash ≡ c.hash
unfolding change_locally join
change_locally-hash c name change = ground arith

change_config-IsInSync :
    (c : Cluster) (name : String) (change : FilterChange)
    → IsInSync c
    → IsInSync (change_config c name change)
unfolding change_config
change_config-IsInSync c name change v other x s h =
    let c' = change_locally c name change in
    elim (Option-cases (Dict.get other c'.workers)) [
      | inl e ↦ ground (arith, publish-get change c'.workers other)
      | inr (w, e) ↦
          let sent : record w { inbox = w.inbox ++ change ∷ [] } ≡ x =
            ground (arith, publish-get change c'.workers other) in
          subst
            (λ (y : Worker).
              Dict.get s (settled y.configs y.inbox)
              ≡ Dict.get s (change_config c name change).hash)
            sent
            (settled-append w.inbox w.configs change s
              ∙ (change_locally-after c name change s v other w e
                  ∙ (ap (λ h. after change s (Dict.get s h))
                        (sym (change_locally-hash c name change))
                      ∙ sym (write_hash-get c'.hash change s))))
    ]

step-IsInSync : (c : Cluster) (x : Call) → IsInSync c → IsInSync (step c x)
unfolding step start
step-IsInSync c (starts name) v = elim (Bool-cases (Dict.has name c.workers)) [
  | inl there ↦ rw (there, start) v
  | inr new ↦ rw (new, start) (join-IsInSync c name v)
]
step-IsInSync c (changes name change) v = change_config-IsInSync c name change v
step-IsInSync c (delivers name) v = deliver-IsInSync c name v
step-IsInSync c (reconciles name) v = reconcile-IsInSync c name v

run-IsInSync : (c : Cluster) (cs : List Call) → IsInSync c → IsInSync (run c cs)
unfolding run
run-IsInSync c [] v = v
run-IsInSync c (x ∷ xs) v = run-IsInSync (step c x) xs (step-IsInSync c x v)

allow-ext :
    (a b : Configs) (event : StreamEvent)
    → Dict.get event.stream_id a ≡ Dict.get event.stream_id b
    → allow a event ≡ allow b event
unfolding allow
allow-ext a b event h = rw (h, allow) refl

-- In whatever order workers start, change configs, receive the messages of the channel and reconcile
-- with the hash, as long as no start and no change overlaps with another step, so that each is one step
-- from its first await to its last: a worker that has no message on its way lets through exactly the
-- events that the configs in the shared hash let through.
pub run-create-agrees :
    (cs : List Call) (name : String) (w : Worker) (event : StreamEvent)
    → Dict.get name (run create cs).workers ≡ some w
    → w.inbox ≡ []
    → allow w.configs event ≡ allow (run create cs).hash event
unfolding create Dict.get settled
run-create-agrees cs name w event h quiet =
    let v = run-IsInSync create cs (λ n x s e. cc) name w event.stream_id h in
    allow-ext w.configs (run create cs).hash event (
      subst
        (λ q.
          Dict.get event.stream_id (settled w.configs q)
          ≡ Dict.get event.stream_id (run create cs).hash)
        quiet v)
