-- ===== src/Host/ResourceNames/Buffer.antt =====
-- internal/host/resource_names.go, bufferedResponse: what is kept of a re-dispatched response.
use host_manager.Base.{
  ℕ, ◌+◌, ◌≤◌, Bytes, ◌≡◌, refl, Bool, true, List, [], ◌∷◌, ◌++◌, inl, inr, Bool-cases, ltb, length,
  length-append, if◌then◌else◌, arith,
}
use host_manager.Host.ResourceNames.Handler.{BufferedResponse}

-- maxListingResponseBytes
abbrev pub max_listing_response_bytes : ℕ
max_listing_response_bytes = 1048576

-- The response so far, and whether its head is written
pub record Buffer : Type 0 where
  pub response : BufferedResponse
  pub wrote_header : Bool

-- A call of the owner on the response
pub data Call : Type 0 where
  head : ℕ → Call
  body : Bytes → Call

-- WriteHeader
unfoldable pub write_header : ℕ → Buffer → Buffer
write_header status b =
    if b.wrote_header
    then b
    else record b { response = record b.response { status = status }; wrote_header = true }

-- Write, which always answers that all was written.
unfoldable pub write : Bytes → Buffer → Buffer
unfolding write_header
write p b =
    let c = write_header 200 b in
    let r = c.response in
    if ltb max_listing_response_bytes (length r.body + length p)
    then record c { response = record r { overflow = true } }
    else record c { response = record r { body = r.body ++ p } }

unfoldable pub calls : List Call → Buffer → Buffer
unfolding write
calls [] b = b
calls (head status ∷ cs) b = calls cs (write_header status b)
calls (body p ∷ cs) b = calls cs (write p b)

write_header-body :
    (status : ℕ) (b : Buffer) → (write_header status b).response.body ≡ b.response.body
unfolding write_header
write_header-body status b = elim (Bool-cases b.wrote_header) [
  | inl y ↦ rw (write_header, y) refl
  | inr n ↦ rw (write_header, n) refl
]

write-le :
    (p : Bytes) (b : Buffer)
    → length b.response.body ≤ max_listing_response_bytes
    → length (write p b).response.body ≤ max_listing_response_bytes
unfolding write
write-le p b h =
    let c = write_header 200 b in
    let same = write_header-body 200 b in
    elim (Bool-cases (ltb max_listing_response_bytes (length c.response.body + length p))) [
      | inl y ↦ rw (write, y, same) h
      | inr n ↦ rw (write, n) (ground (arith, length-append c.response.body p, n))
    ]

-- The kept body never exceeds the limit.
pub calls-le :
    (cs : List Call) (b : Buffer)
    → length b.response.body ≤ max_listing_response_bytes
    → length (calls cs b).response.body ≤ max_listing_response_bytes
unfolding calls
calls-le [] b h = h
calls-le (head status ∷ cs) b h =
    calls-le cs (write_header status b) (rw (write_header-body status b) h)
calls-le (body p ∷ cs) b h = calls-le cs (write p b) (write-le p b h)
