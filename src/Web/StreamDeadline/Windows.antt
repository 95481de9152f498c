-- ===== src/Web/StreamDeadline/Windows.antt =====
-- Which window a response gets, and the deadline that its flushes leave.
use host_manager.Base.{
  ℕ, ◌+◌, beq, ◌≡◌, refl, Bool, true, false, List, [], ◌∷◌, ltb, ◌==◌, if◌then◌else◌, arith, inl,
  inr, Bool-cases,
}
use host_manager.Web.StreamDeadline.{
  Headers, Deadline, inherited, cleared, until, StreamWriter, wrap, is_event_stream, apply_policy,
  write_header, write, flush, Call, head, body, push, Event, perform, handle, serve,
}

-- The window of a response whose final head carries `h`, none for no sliding.
abbrev pub window : ℕ → ℕ → Headers → ℕ
window write_timeout stall_timeout h =
    if is_event_stream h
    then stall_timeout
    else if beq h.content_length []
    then write_timeout
    else 0

-- The deadline at the moment at which the head is final, before a flush.
abbrev pub first_deadline : ℕ → ℕ → Headers → Deadline
first_deadline now stall_timeout h =
    if is_event_stream h
    then (if stall_timeout == 0 then cleared else until (now + stall_timeout))
    else inherited

-- The deadline that one call leaves behind a decided head.
abbrev pub after_call : ℕ → ℕ → Call → Deadline → Deadline
after_call w now push d = if ltb 0 w then until (now + w) else d
after_call w now _ d = d

-- The deadline after more calls: the last flush moves it, if there is a window.
abbrev pub after_flushes : ℕ → List Event → Deadline → Deadline
after_flushes w [] d = d
after_flushes w (e ∷ es) d = after_flushes w es (after_call w e.now e.call d)

-- An informational head.
abbrev is_final : Call → Bool
is_final (head code) = if ltb code 200 then false else true
is_final _ = true

-- The deadline that the whole life of a response leads to.
abbrev pub expected : ℕ → ℕ → List Event → Deadline
expected write_timeout stall_timeout [] = inherited
expected write_timeout stall_timeout (e ∷ es) =
    let rest = expected write_timeout stall_timeout es in
    let decided =
      after_flushes (window write_timeout stall_timeout e.headers) (e ∷ es)
        (first_deadline e.now stall_timeout e.headers) in
    if is_final e.call then decided else rest

apply_policy-decided :
    (now : ℕ) (h : Headers) (s : StreamWriter) → s.wrote_header ≡ true → apply_policy now h s ≡ s
unfolding apply_policy
apply_policy-decided now h s d = ground arith

perform-decided :
    (now : ℕ) (h : Headers) (c : Call) (s : StreamWriter)
    → s.wrote_header ≡ true
    → perform now h c s ≡ record s { deadline = after_call s.slide_window now c s.deadline }
unfolding perform write_header write flush
perform-decided now h (head code) s d = rw (apply_policy-decided now h s d) (ground arith)
perform-decided now h body s d = apply_policy-decided now h s d
perform-decided now h push s d = rw (apply_policy-decided now h s d) (ground arith)

handle-decided :
    (es : List Event) (s : StreamWriter)
    → s.wrote_header ≡ true
    → (handle es s).deadline ≡ after_flushes s.slide_window es s.deadline
unfolding handle
handle-decided [] s h = refl
handle-decided (e ∷ es) s h =
    rw (handle, perform-decided e.now e.headers e.call s h)
      (handle-decided es (record s { deadline = after_call s.slide_window e.now e.call s.deadline })
        h)

-- The first final head, body or flush decides the response by its headers.
apply_policy-wrap :
    (now : ℕ) (h : Headers) (w stall : ℕ)
    → apply_policy now h (wrap w stall) ≡ record (wrap w stall) {
      wrote_header = true;
      slide_window = window w stall h;
      deadline = first_deadline now stall h;
    }
unfolding apply_policy
apply_policy-wrap now h w stall = elim (Bool-cases (is_event_stream h)) [
  | inl y ↦ elim (Bool-cases (stall == 0)) [ inl z ↦ ground arith | inr z ↦ ground arith ]
  | inr n ↦ ground arith
]

perform-first :
    (now : ℕ) (h : Headers) (c : Call) (w stall : ℕ)
    → is_final c ≡ true
    → perform now h c (wrap w stall) ≡ record (wrap w stall) {
      wrote_header = true;
      slide_window = window w stall h;
      deadline = after_call (window w stall h) now c (first_deadline now stall h);
    }
unfolding perform write_header write flush
perform-first now h (head code) w stall f = rw (apply_policy-wrap now h w stall) (ground arith)
perform-first now h body w stall f = apply_policy-wrap now h w stall
perform-first now h push w stall f = rw (apply_policy-wrap now h w stall) (ground arith)

perform-informational :
    (now : ℕ) (h : Headers) (c : Call) (w stall : ℕ)
    → is_final c ≡ false
    → perform now h c (wrap w stall) ≡ wrap w stall
unfolding perform write_header
perform-informational now h (head code) w stall f = ground arith
perform-informational now h body w stall f = ground arith
perform-informational now h push w stall f = ground arith

handle-wrap :
    (w stall : ℕ) (es : List Event) → (handle es (wrap w stall)).deadline ≡ expected w stall es
unfolding handle
handle-wrap w stall [] = refl
handle-wrap w stall (e ∷ es) = elim (Bool-cases (is_final e.call)) [
  | inl f ↦
      rw (handle, perform-first e.now e.headers e.call w stall f, f)
        (handle-decided es
          (record (wrap w stall) {
            wrote_header = true;
            slide_window = window w stall e.headers;
            deadline =
                after_call (window w stall e.headers) e.now e.call
                  (first_deadline e.now stall e.headers);
          })
          refl)
  | inr f ↦
      rw (handle, perform-informational e.now e.headers e.call w stall f, f)
        (handle-wrap w stall es)
]

-- Without a write timeout the connection's deadline is not touched. With one, heads below 200 change nothing, and
-- the first other call decides by its headers: an event stream slides on the stall timeout from that moment on, or has
-- no deadline where that is 0; a response without a content length slides on the write timeout; any other keeps the
-- connection's deadline. A flush of a sliding response, and nothing else, moves its deadline to a window from then.
pub serve-expected :
    (w stall : ℕ) (es : List Event)
    → serve w stall es ≡ (if w == 0 then inherited else expected w stall es)
unfolding serve
serve-expected w stall es = ground (arith, handle-wrap w stall es)
