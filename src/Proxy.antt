-- ===== src/Proxy.antt =====
-- The forwarding of one request (proxy.go, proxy_backend.go): the failover loop of `handleProxy`
-- with the balancer's in-flight counts. `send` stands for `http.NewRequestWithContext` and `client.Do`: the answer of a
-- backend, which may depend on the attempts made before. No other request changes the balancer in between, and
-- the records, the headers and the body of a request are left out.
pub mod Tried
pub mod Next
pub mod Failover
pub mod Balance
pub mod Request
use llama_proxy.Prelude.{
  ℕ, zero, suc, Bool, true, false, Option, none, some, List, [], ◌∷◌, ◌++◌, Text, codes, is_empty,
  trim_right_if, if◌then◌else◌, ◌==◌, length, is_some,
}
use llama_proxy.Config.{BackendConfig, validate_backend_url}
use llama_proxy.Balancer.{
  Strategies, Balancer, enter, leave, select, select_excluding, select_from_tag,
  select_from_tag_excluding,
}

pub record Candidate : Type 0 where
  pub url : Text
  pub cfg : Option BackendConfig
  pub sched_model : Text

pub record Attempt : Type 0 where
  pub name : Text
  pub url : Text
  pub status_code : ℕ
  pub body : Text
  pub error : Text

-- The answer of a backend: a connection error, or a response; or the request to it cannot be built.
pub data Reply : Type 0 where
  unbuilt : (error : Text) → Reply
  refused : (error : Text) → Reply
  answered : (status_code : ℕ) (body : Text) → Reply

-- Where the next backend comes from: `noFailover`, the whole pool, or the pool of a tag.
pub data Source : Type 0 where
  no_failover : Source
  whole_pool : Source
  tag_pool : (tag : Text) → Source

pub data Outcome (B : Type 0) : Type 0 where
  served : (cand : Candidate) (bb : Balancer B) → Outcome B
  not_sent : (status : ℕ) (error : Text) (bb : Balancer B) → Outcome B
  all_failed : (status : ℕ) (attempts : List Attempt) (bb : Balancer B) → Outcome B
  out_of_fuel : (bb : Balancer B) → Outcome B

abbrev pub is_slash : ℕ → Bool
is_slash c = c == 47

abbrev pub candidate_of : BackendConfig → Candidate
candidate_of b = record { url = trim_right_if is_slash b.url; cfg = some b; sched_model = [] }

unfoldable pub candidate_key : Candidate → Text
candidate_key c = elim c.cfg [ some b ↦ b.name | none ↦ c.url ]

unfoldable pub candidate_name : Candidate → Text
candidate_name c = elim c.cfg [ some b ↦ b.name | none ↦ [] ]

unfoldable pub node_of : Candidate → Text
node_of c = elim c.cfg [ some b ↦ b.name | none ↦ [] ]

abbrev pub candidate : Option BackendConfig → Option Candidate
candidate r = elim r [ none ↦ none | some b ↦ some (candidate_of b) ]

-- The attempt that the loop notes, and the status of the answer if no other backend is left.
unfoldable pub attempt_of : Candidate → Reply → Attempt
unfolding candidate_name
attempt_of c (unbuilt e) = record {
  name = candidate_name c;
  url = c.url;
  status_code = 0;
  body = [];
  error = e;
}
attempt_of c (refused e) = record {
  name = candidate_name c;
  url = c.url;
  status_code = 0;
  body = [];
  error = e;
}
attempt_of c (answered st b) = record {
  name = candidate_name c;
  url = c.url;
  status_code = st;
  body = b;
  error = [];
}

unfoldable pub status_of : Reply → ℕ
status_of (unbuilt e) = 500
status_of (refused e) = 502
status_of (answered st b) = st

unfoldable pub is_success : Reply → Bool
is_success (unbuilt e) = false
is_success (refused e) = false
is_success (answered st b) = st == 200

-- The request to the backend cannot be built.
unfoldable pub is_unbuilt : Reply → Bool
is_unbuilt (unbuilt e) = true
is_unbuilt (refused e) = false
is_unbuilt (answered st b) = false

module _ {B : Type 0} (S : Strategies B) where
  -- The first backend (`selectBackend`, by the whole pool or the pool of a matched rule).
  unfoldable pub first_backend : Source → Balancer B → Option Candidate × Balancer B
  first_backend no_failover bb = (none, bb)
  first_backend whole_pool bb = (candidate (select S bb).0, (select S bb).1)
  first_backend (tag_pool tag) bb =
      (candidate (select_from_tag S bb tag).0, (select_from_tag S bb tag).1)

  -- `nextBackend`: a backend not tried yet.
  unfoldable pub next_backend : Source → Balancer B → List Text → Option Candidate × Balancer B
  next_backend no_failover bb tried = (none, bb)
  next_backend whole_pool bb tried =
      (candidate (select_excluding S bb tried).0, (select_excluding S bb tried).1)
  next_backend (tag_pool tag) bb tried = (
    candidate (select_from_tag_excluding S bb tag tried).0,
    (select_from_tag_excluding S bb tag tried).1,
  )

  module _ (source : Source) (send : List Attempt → Candidate → Reply) where
    -- The loop of `handleProxy`: `cand` is the backend to try, `tried` the keys of it and of those
    -- tried before.
    unfoldable pub forward : ℕ → Balancer B → Candidate → List Text → List Attempt → Outcome B
    forward zero bb cand tried attempts = out_of_fuel bb
    forward (suc fuel) bb cand tried attempts =
        let reply = send attempts cand in
        let noted = attempts ++ attempt_of cand reply ∷ [] in
        let left = leave (enter bb (node_of cand)) (node_of cand) in
        let next = next_backend source left tried in
        if is_unbuilt reply
        then not_sent (status_of reply) (attempt_of cand reply).error bb
        else if is_success reply
        then served cand (enter bb (node_of cand))
        else elim next.0 [
          | some nb ↦ forward fuel next.1 nb (candidate_key nb ∷ tried) noted
          | none ↦ all_failed (status_of reply) noted next.1
        ]

    -- The first backend, the check of its URL, and the loop, with fuel for each backend of the pool and one more round.
    unfoldable pub handle : Balancer B → Option (Outcome B)
    unfolding first_backend forward
    handle bb =
        let first = first_backend source bb in
        elim first.0 [
          | none ↦ none
          | some cand ↦
              if is_some (validate_backend_url cand.url)
              then none
              else some
                  (forward (suc (length bb.backends)) first.1 cand (candidate_key cand ∷ []) [])
        ]

-- The balancer after the request: the deferred `leaveNode(successNode)`.
unfoldable pub after : {B : Type 0} → Outcome B → Balancer B
after (served cand bb) = leave bb (node_of cand)
after (not_sent status error bb) = bb
after (all_failed status attempts bb) = bb
after (out_of_fuel bb) = bb

-- The names in the list of attempts that the client gets.
unfoldable pub names_of : List Attempt → List Text
names_of [] = []
names_of (a ∷ rest) = a.name ∷ names_of rest
