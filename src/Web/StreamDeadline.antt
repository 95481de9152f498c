-- ===== src/Web/StreamDeadline.antt =====
-- internal/web/middleware/streamdeadline.go: the write deadline of one response, as the writes, heads and
-- flushes of its handler move it. A timeout of 0 stands for one of zero or less.
pub mod Windows
use host_manager.Base.{
  ℕ, ◌+◌, Bytes, text, beq, has_prefix, Bool, true, false, List, [], ◌∷◌, ltb, ◌==◌, if◌then◌else◌,
}

-- The response headers that the policy reads, as they stand at a call.
pub record Headers : Type 0 where
  pub content_type : Bytes
  pub content_length : Bytes

-- The write deadline of the connection: the server's own, none, or a time.
pub data Deadline : Type 0 where
  inherited cleared : Deadline
  until : ℕ → Deadline

pub record StreamWriter : Type 0 where
  pub write_timeout : ℕ
  pub stall_timeout : ℕ
  pub slide_window : ℕ
  pub wrote_header : Bool
  pub deadline : Deadline

-- The writer that WithStreamDeadline wraps around a response.
abbrev pub wrap : ℕ → ℕ → StreamWriter
wrap write_timeout stall_timeout = record {
  write_timeout = write_timeout;
  stall_timeout = stall_timeout;
  slide_window = 0;
  wrote_header = false;
  deadline = inherited;
}

abbrev pub is_event_stream : Headers → Bool
is_event_stream h = has_prefix h.content_type (text "text/event-stream")

-- applyDeadlinePolicyOnce
unfoldable pub apply_policy : ℕ → Headers → StreamWriter → StreamWriter
apply_policy now h s =
    if s.wrote_header
    then s
    else if is_event_stream h
    then (if s.stall_timeout == 0
        then record s { wrote_header = true; deadline = cleared }
        else record s {
          wrote_header = true;
          slide_window = s.stall_timeout;
          deadline = until (now + s.stall_timeout);
        })
    else if beq h.content_length []
    then record s { wrote_header = true; slide_window = s.write_timeout }
    else record s { wrote_header = true }

-- WriteHeader: an informational head decides nothing.
unfoldable pub write_header : ℕ → ℕ → Headers → StreamWriter → StreamWriter
write_header now code h s = if ltb code 200 then s else apply_policy now h s

-- Write
unfoldable pub write : ℕ → Headers → StreamWriter → StreamWriter
write now h s = apply_policy now h s

-- Flush
unfoldable pub flush : ℕ → Headers → StreamWriter → StreamWriter
flush now h s =
    let t = apply_policy now h s in
    if ltb 0 t.slide_window then record t { deadline = until (now + t.slide_window) } else t

-- What a handler does with the writer, at a time and under the headers of that moment.
pub data Call : Type 0 where
  head : ℕ → Call
  body : Call
  push : Call

pub record Event : Type 0 where
  pub now : ℕ
  pub headers : Headers
  pub call : Call

unfoldable pub perform : ℕ → Headers → Call → StreamWriter → StreamWriter
unfolding write_header write flush
perform now h (head code) s = write_header now code h s
perform now h body s = write now h s
perform now h push s = flush now h s

unfoldable pub handle : List Event → StreamWriter → StreamWriter
unfolding perform
handle [] s = s
handle (e ∷ es) s = handle es (perform e.now e.headers e.call s)

-- WithStreamDeadline: without a write timeout the response is not wrapped.
unfoldable pub serve : ℕ → ℕ → List Event → Deadline
unfolding handle
serve write_timeout stall_timeout events =
    if write_timeout == 0
    then inherited
    else (handle events (wrap write_timeout stall_timeout)).deadline
