-- ===== src/Examples/Upstream.antt =====
-- A request for the role "../admin" of a function that is mounted at /v1.
use host_manager.Base.{
  Bytes, text, beq, split, true, Option, some, [], ◌++◌, if◌then◌else◌, ◌≡◌, refl,
}
use host_manager.Host.UpstreamPath.{
  join, trim_left, trim_right, trim, strip, path_of, trim_base_path_segments, upstream_escaped_path,
  has_dot_dot, has_dot_dot_segment,
}
use host_manager.Host.UpstreamPath.Kept.{Sent, upstream_escaped_path-Sent}

program : Unit {0}
unfolding beq split join trim_left trim_right trim strip path_of trim_base_path_segments
    upstream_escaped_path has_dot_dot has_dot_dot_segment
program = tt

-- The segments of the run that have no percent sign, and one spelling of v1.
abbrev unescape : Bytes → Option Bytes
unescape s = if beq s (text "%76%31") then some (text "v1") else some s

abbrev admin : Bytes
admin = text "v1/roles/%2E%2E%2Fadmin"

-- The percent-encoded segment is sent as it came.
encoded_kept :
    upstream_escaped_path unescape (text "/" ++ admin) (text "/svc/") (text "/v1/") true
    ≡ text "/svc/roles/%2E%2E%2Fadmin"
unfolding program
encoded_kept = refl

other_spelling : upstream_escaped_path unescape (text "/%76%31/x") [] (text "v1") true ≡ text "/x"
unfolding program
other_spelling = refl

all_stripped : upstream_escaped_path unescape (text "/v1") [] (text "/v1") true ≡ text "/"
unfolding program
all_stripped = refl

decoded_found : has_dot_dot_segment (text "/v1/roles/../admin") ≡ true
unfolding program
decoded_found = refl

upstream_escaped_path-Sent_example :
    Sent unescape true
      (text "/v1/")
      (text "/svc/")
      (text "/" ++ admin)
      (text "/svc/roles/%2E%2E%2Fadmin")
unfolding program
upstream_escaped_path-Sent_example =
    upstream_escaped_path-Sent unescape admin (text "/svc/") (text "/v1/") true
