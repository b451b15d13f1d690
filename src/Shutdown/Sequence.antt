-- ===== src/Shutdown/Sequence.antt =====
-- The hooks run once, in the order of registration, and the exit code says how they went.
use xstream_roll.Shared.{
  ℕ, zero, suc, ◌+◌, ◌≤◌, ◌<◌, ◌≡◌, ◌≢◌, refl, ap, sym, ◌∙◌, inl, inr, String, Bool, true, false,
  List, [], ◌∷◌, ◌++◌, length, take, drop, length-append, arith, if◌then◌else◌, Bool-cases,
  append-nil, append_assoc, map,
}
use xstream_roll.Shutdown.{
  ShutdownState, idle, shutting_down, done, GracefulShutdown, Call, registers, requests, settles,
  times_out, create, register, exit_code, loop, request_shutdown, hook_settled, timed_out, step,
  run,
}

-- The hooks, the deadline and the state agree.
pub record IsOrderly (s : GracefulShutdown) : Type 0 where
  -- The hooks started are the first ones registered, each once.
  pub ordered : s.started ≡ take s.next s.hooks
  pub bounded : s.next ≤ length s.hooks
  -- Nothing has happened before the first request.
  pub fresh :
      s.state ≡ idle → (s.waiting ≡ false) × (s.timer ≡ false) × (s.exits ≡ []) × (s.next ≡ 0)
  -- While the shutdown is under way its deadline is pending, the loop waits and nothing has exited.
  pub under_way : s.state ≡ shutting_down → (s.waiting ≡ true) × (s.timer ≡ true) × (s.exits ≡ [])
  -- Once done, no deadline is pending.
  pub over : s.state ≡ done → s.timer ≡ false

take-append : (n : ℕ) (xs ys : List String) → n ≤ length xs → take n (xs ++ ys) ≡ take n xs
take-append zero xs ys h = refl
take-append (suc n) [] ys h = absurd (omega arith)
take-append (suc n) (x ∷ xs) ys h = ap (λ l. x ∷ l) (take-append n xs ys (omega arith))

drop-cons :
    (n : ℕ) (xs : List String) (h : String) (t : List String)
    → drop n xs ≡ h ∷ t
    → (take (suc n) xs ≡ take n xs ++ h ∷ []) × (suc n ≤ length xs)
drop-cons zero [] h t e = cc
drop-cons zero (x ∷ xs) h t e = ground arith
drop-cons (suc n) [] h t e = cc
drop-cons (suc n) (x ∷ xs) h t e =
    let (same, le) = drop-cons n xs h t e in (ap (λ l. x ∷ l) same, omega arith)

drop-nil : (n : ℕ) (xs : List String) → drop n xs ≡ [] → n ≤ length xs → n ≡ length xs
drop-nil zero [] e le = refl
drop-nil zero (x ∷ xs) e le = cc
drop-nil (suc n) [] e le = absurd (omega arith)
drop-nil (suc n) (x ∷ xs) e le = omega (arith, drop-nil n xs e (omega arith))

create-IsOrderly : IsOrderly create
unfolding create
create-IsOrderly = record {
  ordered = refl;
  bounded = omega arith;
  fresh = λ _. (refl, refl, refl, refl);
  under_way = λ e. cc;
  over = λ _. refl;
}

register-IsOrderly : (s : GracefulShutdown) (h : String) → IsOrderly s → IsOrderly (register s h)
unfolding register
register-IsOrderly s h v = record {
  ordered = v.ordered ∙ sym (take-append s.next s.hooks (h ∷ []) v.bounded);
  bounded = omega (arith, v.bounded, length-append s.hooks (h ∷ []));
  fresh = v.fresh;
  under_way = v.under_way;
  over = v.over;
}

-- The loop goes on where the shutdown is under way, or where the deadline has already passed.
loop-IsOrderly :
    (s : GracefulShutdown)
    → s.started ≡ take s.next s.hooks
    → s.next ≤ length s.hooks
    → s.state ≢ idle
    → (s.state ≡ shutting_down → (s.timer ≡ true) × (s.exits ≡ []))
    → (s.state ≡ done → s.timer ≡ false)
    → IsOrderly (loop s)
unfolding loop
loop-IsOrderly s ordered bounded begun live over = go (drop s.next s.hooks) refl
  where
    go : (left : List String) → drop s.next s.hooks ≡ left → IsOrderly (loop s)
    go [] e =
        rw (e, loop)
          (record {
            ordered = ordered;
            bounded = bounded;
            fresh = λ h. cc;
            under_way = λ h. cc;
            over = λ h. refl;
          })
    go (h ∷ t) e =
        let (same, le) = drop-cons s.next s.hooks h t e in
        rw (e, loop)
          (record {
            ordered = ap (λ l. l ++ h ∷ []) ordered ∙ sym same;
            bounded = le;
            fresh = λ q. absurd (begun q);
            under_way = λ q. (refl, (live q).0, (live q).1);
            over = over;
          })

request_shutdown-IsOrderly : (s : GracefulShutdown) → IsOrderly s → IsOrderly (request_shutdown s)
unfolding request_shutdown
request_shutdown-IsOrderly s v = go s.state refl
  where
    go : (state : ShutdownState) → s.state ≡ state → IsOrderly (request_shutdown s)
    go idle e =
        let (_, _, none_yet, at) = v.fresh e in
        rw (e, request_shutdown)
          (loop-IsOrderly
            (record s { state = shutting_down; timer = true; had_error = false; next = 0 })
            (v.ordered ∙ rw at refl) (omega arith) (λ h. cc) (λ h. (refl, none_yet)) (λ h. cc))
    go shutting_down e = rw (e, request_shutdown) v
    go done e = rw (e, request_shutdown) v

hook_settled-IsOrderly :
    (s : GracefulShutdown) (ok : Bool) → IsOrderly s → IsOrderly (hook_settled s ok)
unfolding hook_settled
hook_settled-IsOrderly s ok v = elim (Bool-cases s.waiting) [
  | inl on ↦
      rw (on, hook_settled)
        (loop-IsOrderly (record s { had_error = if ok then s.had_error else true }) v.ordered
          v.bounded (λ e. ground (arith, (v.fresh e).0))
          (λ e. ((v.under_way e).1, (v.under_way e).2)) v.over)
  | inr off ↦ simp (off, hook_settled) v
]

timed_out-IsOrderly : (s : GracefulShutdown) → IsOrderly s → IsOrderly (timed_out s)
unfolding timed_out
timed_out-IsOrderly s v = elim (Bool-cases s.timer) [
  | inl on ↦
      rw (on, timed_out)
        (record {
          ordered = v.ordered;
          bounded = v.bounded;
          fresh = λ e. cc;
          under_way = λ e. cc;
          over = λ e. refl;
        })
  | inr off ↦ simp (off, timed_out) v
]

step-IsOrderly : (s : GracefulShutdown) (c : Call) → IsOrderly s → IsOrderly (step s c)
unfolding step
step-IsOrderly s (registers hook) v = register-IsOrderly s hook v
step-IsOrderly s requests v = request_shutdown-IsOrderly s v
step-IsOrderly s (settles ok) v = hook_settled-IsOrderly s ok v
step-IsOrderly s times_out v = timed_out-IsOrderly s v

run-IsOrderly : (s : GracefulShutdown) (cs : List Call) → IsOrderly s → IsOrderly (run s cs)
unfolding run
run-IsOrderly s [] v = v
run-IsOrderly s (c ∷ cs) v = run-IsOrderly (step s c) cs (step-IsOrderly s c v)

-- However often a shutdown is requested, whatever the hooks do, and whether the deadline passes or
-- not: the hooks that were started are the first ones registered, each once and in that order;
-- nothing is started before the first request; and as long as the shutdown is under way, a hook is
-- waited for, the deadline is pending and `exit` has not been called.
pub run-create-IsOrderly : (cs : List Call) → IsOrderly (run create cs)
run-create-IsOrderly cs = run-IsOrderly create cs create-IsOrderly

drop-length : (n : ℕ) (xs : List String) → n ≡ length xs → drop n xs ≡ []
drop-length zero [] e = refl
drop-length zero (x ∷ xs) e = absurd (omega arith)
drop-length (suc n) [] e = absurd (omega arith)
drop-length (suc n) (x ∷ xs) e = drop-length n xs (omega arith)

drop-lt :
    (n : ℕ) (xs : List String)
    → n < length xs
    → (h : String) × (t : List String) × (drop n xs ≡ h ∷ t)
drop-lt zero [] e = absurd (omega arith)
drop-lt zero (x ∷ xs) e = (x, xs, refl)
drop-lt (suc n) [] e = absurd (omega arith)
drop-lt (suc n) (x ∷ xs) e = drop-lt n xs (omega arith)

take-length : (n : ℕ) (xs : List String) → n ≡ length xs → take n xs ≡ xs
take-length zero [] e = refl
take-length zero (x ∷ xs) e = absurd (omega arith)
take-length (suc n) [] e = absurd (omega arith)
take-length (suc n) (x ∷ xs) e = ap (λ l. x ∷ l) (take-length n xs (omega arith))

-- Some hook threw.
abbrev pub any_threw : Bool → List Bool → Bool
any_threw so_far [] = so_far
any_threw so_far (ok ∷ oks) = any_threw (if ok then so_far else true) oks

loop-settles :
    (oks : List Bool) (s : GracefulShutdown)
    → s.exits ≡ []
    → s.started ≡ take s.next s.hooks
    → s.next + length oks ≡ length s.hooks
    → let s' = run (loop s) (map settles oks) in
      (s'.started ≡ s.hooks)
      × (s'.state ≡ done)
      × (s'.exits ≡ exit_code (any_threw s.had_error oks) ∷ [])
unfolding run step loop hook_settled
loop-settles [] s quiet ordered count =
    let last : drop s.next s.hooks ≡ [] = drop-length s.next s.hooks (omega arith) in
    rw (last, loop) (ordered ∙ take-length s.next s.hooks (omega arith), refl, rw quiet refl)
loop-settles (ok ∷ oks) s quiet ordered count =
    let (h, t, e) = drop-lt s.next s.hooks (omega arith) in
    let (same, _) = drop-cons s.next s.hooks h t e in
    rw (e, loop)
      (loop-settles oks
        (record s {
          waiting = true;
          next = suc s.next;
          started = s.started ++ h ∷ [];
          had_error = if ok then s.had_error else true;
        })
        quiet (ap (λ l. l ++ h ∷ []) ordered ∙ sym same) (omega arith))

run-registers :
    (hooks : List String) (s : GracefulShutdown) (cs : List Call)
    → run s (map registers hooks ++ cs) ≡ run (record s { hooks = s.hooks ++ hooks }) cs
unfolding run step register
run-registers [] s cs = rw (append-nil s.hooks) refl
run-registers (h ∷ hooks) s cs =
    run-registers hooks (register s h) cs ∙ rw (append_assoc s.hooks (h ∷ []) hooks) refl

-- If the hooks' promises are settled before the deadline, some fulfilled and some rejected, then
-- every registered hook has been started, in order, a hook that throws does not keep the later ones
-- from running, and `exit` is called once, with 1 if a hook threw and with 0 if none did.
pub all_hooks_run :
    (hooks : List String) (oks : List Bool)
    → length oks ≡ length hooks
    → let s = run create (map registers hooks ++ requests ∷ map settles oks) in
      (s.started ≡ hooks) × (s.state ≡ done) × (s.exits ≡ exit_code (any_threw false oks) ∷ [])
unfolding run step create request_shutdown
all_hooks_run hooks oks same = rw (run-registers hooks create (requests ∷ map settles oks)) (
    loop-settles oks (record create { hooks = hooks; state = shutting_down; timer = true }) refl
      refl (omega arith))
