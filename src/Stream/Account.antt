-- ===== src/Stream/Account.antt =====
-- What the client, the counter and the capture have after a copy, however it ends (proxy_stream.go, internal/meta/meta.go).
use mathlib.Core.List.{append-nil, append_assoc}
use llama_proxy.Prelude.{
  ℕ, zero, suc, ◌+◌, ◌≤◌, ◌<◌, ◌≢◌, ◌≡◌, refl, sym, ap, ◌∙◌, true, false, not, ◌&&◌, ◌==◌, is_some,
  none, some, List, [], ◌∷◌, ◌++◌, arith, Text, length, take, length-append, length-take, is_empty,
  is_empty→nil, if◌then◌else◌, ltb, Bool-cases, Option-cases, inl, inr, All,
}
use llama_proxy.Capture.{new_limited_buffer, kept, take-none, write-max, write-kept}
use llama_proxy.Stream.{
  eof, broken, Round, Copy, done, write_error, hand_on, ended, stream_copy, is_data, count_line,
  stream_copy_sse,
}

abbrev pub fresh : ℕ → Copy
fresh max = record { copied = 0; capture = new_limited_buffer max; chunks = 0; sent = [] }

-- The io.Writer contract: a write takes at most what it is given, and all of it if it does not fail.
pub record IsWrite (r : Round) : Type 0 where
  pub bounded : r.taken ≤ length r.bytes
  pub whole : r.write_fails ≡ false → r.taken ≡ length r.bytes

-- The bytes that the source gives up to its end, or its error.
unfoldable pub body : List Round → Text
body [] = []
body (r ∷ rs) = let rest = body rs in if is_some r.read_error then r.bytes else r.bytes ++ rest

abbrev pub data_line : Round → ℕ
data_line r = if not (is_empty r.bytes) && is_data r.bytes then 1 else 0

-- The lines with data among them.
unfoldable pub data_lines : List Round → ℕ
data_lines [] = 0
data_lines (r ∷ rs) =
    let rest = data_lines rs in if is_some r.read_error then data_line r else data_line r + rest

-- The counter is that of the bytes sent, and the capture has their beginning.
pub record IsAccounted (max : ℕ) (c : Copy) : Type 0 where
  pub counted : c.copied ≡ length c.sent
  pub sized : c.capture.max ≡ max
  pub captured : c.capture.buf ≡ kept c.capture.max c.sent

pub fresh-IsAccounted : (max : ℕ) → IsAccounted max (fresh max)
unfolding new_limited_buffer
fresh-IsAccounted max = record { counted = refl; sized = refl; captured = empty }
  where
    empty : ◌≡◌ {A = Text} [] (kept max [])
    empty = elim (Bool-cases (max == 0)) [ inl a ↦ rw a refl | inr b ↦ rw b (take-none max) ]

hand_on-IsAccounted :
    (max : ℕ) (c : Copy) (r : Round)
    → r.taken ≤ length r.bytes
    → IsAccounted max c
    → IsAccounted max (hand_on c r)
hand_on-IsAccounted max c r bounded k = elim (Bool-cases (is_empty r.bytes)) [
  | inl e ↦ rw e k
  | inr full ↦ elim (Bool-cases (ltb 0 r.taken)) [
    | inr zero_taken ↦ rw (full, zero_taken) k
    | inl some_taken ↦
        rw (full, some_taken)
          (record {
            counted = omega (
              arith,
              k.counted,
              length-append c.sent (take r.taken r.bytes),
              length-take r.taken r.bytes,
              bounded,
            );
            sized = write-max c.capture (take r.taken r.bytes) ∙ k.sized;
            captured =
                write-kept c.capture c.sent (take r.taken r.bytes) k.captured
                ∙ ap (λ m. kept m (c.sent ++ take r.taken r.bytes))
                    (sym (write-max c.capture (take r.taken r.bytes)));
          })
  ]
]

count_line-IsAccounted :
    (max : ℕ) (c : Copy) (r : Round) → IsAccounted max c → IsAccounted max (count_line c r)
count_line-IsAccounted max c r k = elim (Bool-cases (not (is_empty r.bytes) && is_data r.bytes)) [
  | inl e ↦ rw e (record { counted = k.counted; sized = k.sized; captured = k.captured })
  | inr o ↦ rw o k
]

bytes-IsAccounted :
    (max : ℕ) (c : Copy) (rs : List Round)
    → All (λ r. r.taken ≤ length r.bytes) rs
    → IsAccounted max c
    → IsAccounted max (stream_copy c rs).0
unfolding stream_copy
bytes-IsAccounted max c [] writes k = k
bytes-IsAccounted max c (r ∷ rs) (w, writes) k =
    let here = hand_on-IsAccounted max c r w k in
    elim (Option-cases (ended r)) [
      | inr (e, ends) ↦ rw (ends, stream_copy) here
      | inl goes_on ↦ rw (goes_on, stream_copy) (bytes-IsAccounted max (hand_on c r) rs writes here)
    ]

lines-IsAccounted :
    (max : ℕ) (c : Copy) (rs : List Round)
    → All (λ r. r.taken ≤ length r.bytes) rs
    → IsAccounted max c
    → IsAccounted max (stream_copy_sse c rs).0
unfolding stream_copy_sse
lines-IsAccounted max c [] writes k = k
lines-IsAccounted max c (r ∷ rs) (w, writes) k =
    let here = hand_on-IsAccounted max (count_line c r) r w (count_line-IsAccounted max c r k) in
    elim (Option-cases (ended r)) [
      | inr (e, ends) ↦ rw (ends, stream_copy_sse) here
      | inl goes_on ↦
          rw (goes_on, stream_copy_sse)
            (lines-IsAccounted max (hand_on (count_line c r) r) rs writes here)
    ]

-- However a copy ends, also by an error of the client or of the backend, of bytes or of lines: the counter
-- is the number of bytes that the client has, and the capture has the first `max` of them (all for 0),
-- if each write takes at most what it is given and this held before.
pub stream_copy-IsAccounted :
    (max : ℕ) (c : Copy) (rs : List Round)
    → All (λ r. r.taken ≤ length r.bytes) rs
    → IsAccounted max c
    → IsAccounted max (stream_copy c rs).0 × IsAccounted max (stream_copy_sse c rs).0
stream_copy-IsAccounted max c rs writes k =
    (bytes-IsAccounted max c rs writes k, lines-IsAccounted max c rs writes k)

take-all : (n : ℕ) (xs : Text) → n ≡ length xs → take n xs ≡ xs
take-all zero [] e = refl
take-all zero (x ∷ xs) e = absurd (omega (arith, e))
take-all (suc n) [] e = refl
take-all (suc n) (x ∷ xs) e = ap (λ l. x ∷ l) (take-all n xs (omega (arith, e)))

full-length : (s : Text) → is_empty s ≡ false → 0 < length s
unfolding is_empty
full-length [] h = cc
full-length (c ∷ s) h = omega arith

-- A whole write hands on all bytes.
hand_on-whole :
    (c : Copy) (r : Round)
    → r.taken ≡ length r.bytes
    → ((hand_on c r).sent ≡ c.sent ++ r.bytes) × ((hand_on c r).chunks ≡ c.chunks)
hand_on-whole c r e = elim (Bool-cases (is_empty r.bytes)) [
  | inl none_read ↦
      let nil = is_empty→nil r.bytes none_read in
      rw none_read (sym (append-nil c.sent) ∙ ap (λ x. c.sent ++ x) (sym nil), refl)
  | inr full ↦ elim (Bool-cases (ltb 0 r.taken)) [
    | inl some_taken ↦
        rw (full, some_taken) (ap (λ x. c.sent ++ x) (take-all r.taken r.bytes e), refl)
    | inr zero_taken ↦ ground (arith, zero_taken, e, full-length r.bytes full)
  ]
]

-- A round that does not end the copy by a failed write hands on all that it has read.
round-whole : (r : Round) → IsWrite r → ended r ≢ some write_error → r.taken ≡ length r.bytes
unfolding ended is_empty
round-whole r w good = elim (Bool-cases r.write_fails) [
  | inr fine ↦ w.whole fine
  | inl fails ↦ elim (Bool-cases (is_empty r.bytes)) [
    | inl none_read ↦
        let nil = is_empty→nil r.bytes none_read in omega (arith, w.bounded, ap length nil)
    | inr full ↦ absurd (good (ground (arith, fails, full)))
  ]
]

line-whole :
    (c : Copy) (r : Round)
    → r.taken ≡ length r.bytes
    → ((hand_on (count_line c r) r).sent ≡ c.sent ++ r.bytes)
      × ((hand_on (count_line c r) r).chunks ≡ c.chunks + data_line r)
line-whole c r e =
    let (sent, chunks) = hand_on-whole (count_line c r) r e in
    (ground (arith, sent), ground (arith, chunks))

ended-read_error : (r : Round) → ended r ≡ some done → is_some r.read_error ≡ true
unfolding ended
ended-read_error r h = ground (arith, h)

goes_on-read_error : (r : Round) → ended r ≡ none → is_some r.read_error ≡ false
unfolding ended
goes_on-read_error r h = elim (Option-cases r.read_error) [
  | inl quiet ↦ ground (arith, quiet)
  | inr (e, found) ↦ elim (Bool-cases (not (is_empty r.bytes) && r.write_fails)) [
    | inl fails ↦ ground (arith, h, fails)
    | inr fine ↦
        elim e as (λ x. r.read_error ≡ some x → is_some r.read_error ≡ false) [
          | eof ↦ λ f. ground (arith, h, fine, f)
          | broken ↦ λ f. ground (arith, h, fine, f)
        ]
          found
  ]
]

-- A copy of lines that ends well has sent the whole body, and has counted its lines with data.
pub stream_copy_sse-done :
    (c : Copy) (rs : List Round)
    → All IsWrite rs
    → (stream_copy_sse c rs).1 ≡ some done
    → ((stream_copy_sse c rs).0.sent ≡ c.sent ++ body rs)
      × ((stream_copy_sse c rs).0.chunks ≡ c.chunks + data_lines rs)
unfolding stream_copy_sse body data_lines
stream_copy_sse-done c [] writes h = cc
stream_copy_sse-done c (r ∷ rs) (w, writes) h = elim (Option-cases (ended r)) [
  | inr (e, ends) ↦
      let is_done : ended r ≡ some done = ground (arith, ends, h) in
      let (sent, chunks) = line-whole c r (round-whole r w (λ bad. cc)) in
      let last = ended-read_error r is_done in
      (ground (arith, ends, sent, last), ground (arith, ends, chunks, last))
  | inl goes_on ↦
      let (sent, chunks) = line-whole c r (round-whole r w (λ bad. cc)) in
      let more = goes_on-read_error r goes_on in
      let (later, lines) =
        stream_copy_sse-done (hand_on (count_line c r) r) rs writes (ground (arith, goes_on, h)) in
      (
        ground (arith, goes_on, later, sent, more, append_assoc c.sent r.bytes (body rs)),
        ground (arith, goes_on, lines, chunks, more),
      )
]
