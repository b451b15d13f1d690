-- ===== src/Live/History.antt =====
-- What the hook shows after any signals of the socket.
use xstream_roll.Shared.{
  ℕ, zero, suc, ◌+◌, ◌-◌, ◌≤◌, ◌≡◌, refl, ap, sym, ◌∙◌, String, Bool, true, false, Option, none,
  some, List, [], ◌∷◌, ◌++◌, drop, length, length-append, append_assoc, append-nil, is_some, subst,
  ◌||◌, Bool-cases, inl, inr, arith, if◌then◌else◌, ◌==◌, string_key,
}
use xstream_roll.Live.{
  StreamEvent, StreamStatus, inactive, active, error, Payload, Kind, started, stopped, failed,
  StreamSocket, Signal, connects, connect_fails, disconnects, timer_fires, tells, Texts, max_events,
  set_up, append_event, map_payload, matches_target, status_of, on_event, step, run, handle_connect,
  handle_connect_error, handle_disconnect, reconnect,
}

-- All events that the socket tells, in their order.
pub told : Texts → List Signal → List StreamEvent
told t [] = []
told t (tells kind p now ∷ xs) = map_payload t kind p now ∷ told t xs
told t (connects ∷ xs) = told t xs
told t (connect_fails ∷ xs) = told t xs
told t (disconnects reason ∷ xs) = told t xs
told t (timer_fires is_connected ∷ xs) = told t xs

-- The status of a stream after an event: active once it has started, inactive once it has stopped.
abbrev pub becomes : Kind → StreamStatus
becomes started = active
becomes stopped = inactive
becomes failed = error

-- The stream that an event names by its `streamId`, else by its `id`, else by the empty text.
abbrev pub named : Option String → Option String → String
named (some stream_id) legacy_id = stream_id
named none (some legacy_id) = legacy_id
named none none = ""

-- An event counts if no stream is shown or it names the one that is.
abbrev pub counts_for : Option String → Payload → Bool
counts_for none p = true
counts_for (some shown) p = named p.stream_id p.legacy_id == shown

-- The status that the last of the events that count gives the stream.
pub last_status : Option String → Option StreamStatus → List Signal → Option StreamStatus
last_status target before [] = before
last_status target before (tells kind p now ∷ xs) =
    last_status target (if counts_for target p then some (becomes kind) else before) xs
last_status target before (connects ∷ xs) = last_status target before xs
last_status target before (connect_fails ∷ xs) = last_status target before xs
last_status target before (disconnects reason ∷ xs) = last_status target before xs
last_status target before (timer_fires is_connected ∷ xs) = last_status target before xs

matches_target-counts_for :
    (target : Option String) (p : Payload) → matches_target target p ≡ counts_for target p
unfolding matches_target
matches_target-counts_for none p = refl
matches_target-counts_for (some shown) p = ground arith

status_of-becomes : (kind : Kind) → status_of kind ≡ becomes kind
status_of-becomes started = refl
status_of-becomes stopped = refl
status_of-becomes failed = refl

-- The last `n` of a list.
abbrev pub last_of : ℕ → List StreamEvent → List StreamEvent
last_of n l = drop (length l - n) l

drop-append :
    (k : ℕ) (xs ys : List StreamEvent) → k ≤ length xs → drop k (xs ++ ys) ≡ drop k xs ++ ys
drop-append zero xs ys h = refl
drop-append (suc k) [] ys h = absurd (omega arith)
drop-append (suc k) (x ∷ xs) ys h = drop-append k xs ys (omega arith)

drop-nil : (j : ℕ) → drop {A = StreamEvent} j [] ≡ []
drop-nil zero = refl
drop-nil (suc j) = refl

drop-drop : (j k m : ℕ) (xs : List StreamEvent) → m ≡ k + j → drop j (drop k xs) ≡ drop m xs
drop-drop j zero m xs e = let same : j ≡ m = omega arith in ap (λ n. drop n xs) same
drop-drop j (suc k) zero xs e = absurd (omega arith)
drop-drop j (suc k) (suc m) [] e = drop-nil j
drop-drop j (suc k) (suc m) (x ∷ xs) e = drop-drop j k m xs (omega arith)

length-drop : (k : ℕ) (xs : List StreamEvent) → length (drop k xs) ≡ length xs - k
length-drop zero xs = omega arith
length-drop (suc k) [] = omega arith
length-drop (suc k) (x ∷ xs) = omega (arith, length-drop k xs)

-- To forget before an event is added makes no difference.
append_event-last_of :
    (h : List StreamEvent) (e : StreamEvent)
    → append_event (last_of 100 h) e ≡ last_of 100 (h ++ e ∷ [])
unfolding append_event max_events
append_event-last_of h e =
    let k = length h - 100 in
    let kept = drop k h in
    let shorter = length-drop k h in
    let longer = length-append h (e ∷ []) in
    let all = length-append kept (e ∷ []) in
    ap (λ l. drop (length (kept ++ e ∷ []) - 100) l) (sym (drop-append k h (e ∷ []) (omega arith)))
    ∙ drop-drop (length (kept ++ e ∷ []) - 100) k (length (h ++ e ∷ []) - 100) (h ++ e ∷ [])
        (omega (arith, shorter, longer, all))

-- A disconnect and the timer leave what is shown.
handle_disconnect_keeps :
    (s : StreamSocket) (reason : String)
    → ((handle_disconnect s reason).events ≡ s.events)
      × ((handle_disconnect s reason).stream_status ≡ s.stream_status)
unfolding handle_disconnect
handle_disconnect_keeps s reason =
    elim (Bool-cases (reason == "io client disconnect" || reason == "io server disconnect")) [
      | inl e ↦ (rw (handle_disconnect, e) refl, rw (handle_disconnect, e) refl)
      | inr e ↦ elim (Bool-cases (is_some s.reconnect_timer)) [
        | inl f ↦ (rw (handle_disconnect, e, f) refl, rw (handle_disconnect, e, f) refl)
        | inr f ↦ (rw (handle_disconnect, e, f) refl, rw (handle_disconnect, e, f) refl)
      ]
    ]

reconnect_keeps :
    (s : StreamSocket) (is_connected : Bool)
    → ((reconnect s is_connected).events ≡ s.events)
      × ((reconnect s is_connected).stream_status ≡ s.stream_status)
unfolding reconnect
reconnect_keeps s true = (refl, refl)
reconnect_keeps s false = (refl, refl)

-- The events so far, and the status of the stream.
abbrev IsShown : StreamSocket → List StreamEvent → Option StreamStatus → Type 0
IsShown s h status = (s.events ≡ last_of 100 h) × (s.stream_status ≡ status)

run-IsShown :
    (t : Texts) (target : Option String) (xs : List Signal) (s : StreamSocket)
    (h : List StreamEvent) (status : Option StreamStatus)
    → IsShown s h status
    → IsShown (run t target s xs) (h ++ told t xs) (last_status target status xs)
unfolding run step told last_status handle_connect handle_connect_error on_event
run-IsShown t target [] s h status k = rw (append-nil h) k
run-IsShown t target (connects ∷ xs) s h status k =
    run-IsShown t target xs (handle_connect s) h status k
run-IsShown t target (connect_fails ∷ xs) s h status k =
    run-IsShown t target xs (handle_connect_error s) h status k
run-IsShown t target (disconnects reason ∷ xs) s h status k =
    let same = handle_disconnect_keeps s reason in
    run-IsShown t target xs (handle_disconnect s reason) h status (same.0 ∙ k.0, same.1 ∙ k.1)
run-IsShown t target (timer_fires is_connected ∷ xs) s h status k =
    let same = reconnect_keeps s is_connected in
    run-IsShown t target xs (reconnect s is_connected) h status (same.0 ∙ k.0, same.1 ∙ k.1)
run-IsShown t target (tells kind p now ∷ xs) s h status k =
    let e = map_payload t kind p now in
    let next : IsShown (on_event t target s kind p now) (h ++ e ∷ [])
        (if counts_for target p then some (becomes kind) else status) =
      (
        ap (λ l. append_event l e) k.0 ∙ append_event-last_of h e,
        rw (← (matches_target-counts_for target p), ← (status_of-becomes kind))
            (ap (λ old. if matches_target target p then some (status_of kind) else old) k.1),
      ) in
    subst
      (λ l.
        IsShown (run t target (on_event t target s kind p now) xs) l
          (last_status target status (tells kind p now ∷ xs)))
      (append_assoc h (e ∷ []) (told t xs))
      (run-IsShown t target xs (on_event t target s kind p now) (h ++ e ∷ []) _ next)

-- After any signals the hook shows the last hundred events of the socket in their order, at most a
-- hundred, whether or not they are of its stream, and the status that the last event that names its
-- stream gives it, or the last event of all if it shows no stream: active for a start, inactive for a
-- stop, and an error. Disconnects and retries make no difference.
pub run-set_up :
    (t : Texts) (target : Option String) (xs : List Signal)
    → let s = run t target (set_up []) xs in
      (s.events ≡ last_of 100 (told t xs))
      × (length s.events ≤ 100)
      × (s.stream_status ≡ last_status target none xs)
unfolding set_up
run-set_up t target xs =
    let shown = run-IsShown t target xs (set_up []) [] none (refl, refl) in
    (
      shown.0,
      rw shown.0 (omega (arith, length-drop (length (told t xs) - 100) (told t xs))),
      shown.1,
    )
