-- ===== src/Examples/Web.antt =====
-- Runs of the stream deadline.
use host_manager.Base.{text, has_prefix, beq, ◌≡◌, refl, List, [], ◌∷◌, ◌==◌, if◌then◌else◌}
use host_manager.Web.StreamDeadline.{
  Headers, inherited, until, apply_policy, write_header, write, flush, head, body, push, Event,
  perform, handle, serve,
}
use host_manager.Web.StreamDeadline.Windows.{expected, serve-expected}

abbrev plain : Headers
plain = record { content_type = []; content_length = [] }

abbrev stream : Headers
stream = record { content_type = text "text/event-stream; charset=utf-8"; content_length = [] }

-- Early hints, then an event stream, flushed at 9 and 40.
abbrev hinted : List Event
hinted =
    record { now = 1; headers = plain; call = head 103 }
    ∷ record { now = 2; headers = stream; call = head 200 }
    ∷ record { now = 9; headers = stream; call = push }
    ∷ record { now = 30; headers = stream; call = body }
    ∷ record { now = 40; headers = stream; call = push }
    ∷ []

serve-hinted : serve 60 300 hinted ≡ until 340
unfolding serve handle perform write_header write flush apply_policy has_prefix beq
serve-hinted = refl

serve-expected_example :
    serve 60 300 hinted ≡ (if 60 == 0 then inherited else expected 60 300 hinted)
serve-expected_example = serve-expected 60 300 hinted
