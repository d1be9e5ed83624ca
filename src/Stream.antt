-- ===== src/Stream.antt =====
-- proxy_stream.go: the copy of a response to the client. A round of the loop is a `Round`: the bytes that the read
-- gives, its error, how many bytes the client takes of them, and whether that write fails. The time of the
-- first byte and the flushes are left out.
pub mod Account
use llama_proxy.Prelude.{
  ℕ, zero, suc, ◌+◌, ◌-◌, Bool, true, false, not, ◌&&◌, ◌||◌, Option, none, some, List, [], ◌∷◌,
  ◌++◌, Text, codes, length, take, drop, has_prefix, contains, is_empty, trim_space, eq_text,
  if◌then◌else◌, ltb,
}
use llama_proxy.Capture.{LimitedBuffer, write}

pub data ReadError : Type 0 where
  eof : ReadError
  broken : ReadError

pub record Round : Type 0 where
  pub bytes : Text
  pub read_error : Option ReadError
  pub taken : ℕ
  pub write_fails : Bool

-- `copied`, `capture` and `chunks`, and the bytes that the client has.
pub record Copy : Type 0 where
  pub copied : ℕ
  pub capture : LimitedBuffer
  pub chunks : ℕ
  pub sent : Text

pub data Ended : Type 0 where
  done : Ended
  write_error : Ended
  read_failed : Ended

-- The part of a round that hands the bytes on.
abbrev pub hand_on : Copy → Round → Copy
hand_on c r =
    if is_empty r.bytes
    then c
    else if ltb 0 r.taken
    then record c {
      copied = c.copied + r.taken;
      capture = write c.capture (take r.taken r.bytes);
      sent = c.sent ++ take r.taken r.bytes;
    }
    else c

unfoldable pub ended : Round → Option Ended
ended r = if not (is_empty r.bytes) && r.write_fails then some write_error else elim r.read_error [
  | none ↦ none
  | some e ↦ elim e [ eof ↦ some done | broken ↦ some read_failed ]
]

-- The result is none while the source gives no end.
unfoldable pub stream_copy : Copy → List Round → Copy × Option Ended
unfolding ended
stream_copy c [] = (c, none)
stream_copy c (r ∷ rs) =
    let next = stream_copy (hand_on c r) rs in
    elim (ended r) [ some e ↦ (hand_on c r, some e) | none ↦ next ]

-- A line with data, and not the end mark.
unfoldable pub is_data : Text → Bool
is_data line =
    has_prefix line (codes "data:")
    && (let trimmed = trim_space (drop 5 line) in
        not (is_empty trimmed) && not (eq_text trimmed (codes "[DONE]")))

-- Each round reads a line.
abbrev pub count_line : Copy → Round → Copy
count_line c r =
    if not (is_empty r.bytes) && is_data r.bytes then record c { chunks = c.chunks + 1 } else c

unfoldable pub stream_copy_sse : Copy → List Round → Copy × Option Ended
unfolding is_data ended
stream_copy_sse c [] = (c, none)
stream_copy_sse c (r ∷ rs) =
    let handed = hand_on (count_line c r) r in
    let next = stream_copy_sse handed rs in
    elim (ended r) [ some e ↦ (handed, some e) | none ↦ next ]

-- The bytes of the body, and whether it has more than `cap`; a read error ends the body.
unfoldable pub read_limited : Text → ℕ → Text × Bool
read_limited body cap =
    let raw = take (cap + 1) body in
    if ltb cap (length raw) then (take cap raw, true) else (raw, false)

unfoldable pub is_streaming_response : (Text → Text) → Text → Bool → Bool
is_streaming_response lower content_type req_streaming =
    if req_streaming then true else contains (lower content_type) (codes "text/event-stream")
