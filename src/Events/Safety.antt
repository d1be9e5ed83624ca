-- ===== src/Events/Safety.antt =====
-- No message is sent on a closed channel, and no channel is closed twice (internal/events/events.go).
use llama_proxy.Prelude.{
  ℕ, ◌≤◌, ◌<◌, ◌≡◌, ◌≢◌, refl, sym, ap, subst, true, Option, none, some, List, [], ◌∷◌, ◌++◌, arith,
  Text, length, length-append, In, Distinct, In-last, Distinct-last, ◌==◌, Bool-cases, ◌⊎◌, inl,
  inr,
}
use llama_proxy.Events.{
  EventHub, new_hub, subscribe, is_client, drop_client, unsubscribe, offer, offer_all, broadcast,
  broadcast_with_type, typed_message, take_message,
}

-- What the hub and its subscribers do.
pub data Op : Type 0 where
  subscribes : Op
  unsubscribes : ℕ → Op
  broadcasts : Option Text → Op
  typed : Text → Option Text → Op
  takes : ℕ → Op

unfoldable pub apply : EventHub → Op → EventHub
apply h subscribes = (subscribe h).0
apply h (unsubscribes ch) = unsubscribe h ch
apply h (broadcasts json) = broadcast h json
apply h (typed event_type json) = broadcast_with_type h event_type json
apply h (takes ch) = record h { clients = take_message ch h.clients }

unfoldable pub run : EventHub → List Op → EventHub
unfolding apply
run h [] = h
run h (op ∷ ops) = run (apply h op) ops

-- The channels of the clients.
unfoldable pub channels : List (ℕ × List Text) → List ℕ
channels [] = []
channels ((c, q) ∷ clients) = c ∷ channels clients

-- Every queue fits its channel.
unfoldable pub AllFit : List (ℕ × List Text) → Type 0
AllFit [] = Unit
AllFit ((c, q) ∷ clients) = (length q ≤ 64) × AllFit clients

-- No channel is listed twice or closed twice, no client's channel is closed, a new channel is new, and
-- each queue fits its channel.
pub record IsSafe (h : EventHub) : Type 0 where
  pub once : Distinct (channels h.clients)
  pub closed_once : Distinct h.closed
  pub apart : (ch : ℕ) → In ch (channels h.clients) → ¬ In ch h.closed
  pub old : (ch : ℕ) → In ch (channels h.clients) ⊎ In ch h.closed → ch < h.next
  pub fit : AllFit h.clients

channels-append :
    (cs : List (ℕ × List Text)) (ch : ℕ) (q : List Text)
    → channels (cs ++ (ch, q) ∷ []) ≡ channels cs ++ ch ∷ []
unfolding channels
channels-append [] ch q = refl
channels-append ((c, p) ∷ cs) ch q = ap (λ x. c ∷ x) (channels-append cs ch q)

AllFit-append : (cs : List (ℕ × List Text)) (ch : ℕ) → AllFit cs → AllFit (cs ++ (ch, []) ∷ [])
unfolding AllFit
AllFit-append [] ch h = (omega arith, tt)
AllFit-append ((c, p) ∷ cs) ch (f, h) = (f, AllFit-append cs ch h)

channels-offer_all :
    (msg : Text) (cs : List (ℕ × List Text)) → channels (offer_all msg cs) ≡ channels cs
unfolding channels offer_all
channels-offer_all msg [] = refl
channels-offer_all msg ((c, q) ∷ cs) = ap (λ x. c ∷ x) (channels-offer_all msg cs)

offer-length : (msg : Text) (q : List Text) → length q ≤ 64 → length (offer msg q) ≤ 64
offer-length msg q h = ground (arith, h, length-append q (msg ∷ []))

AllFit-offer_all : (msg : Text) (cs : List (ℕ × List Text)) → AllFit cs → AllFit (offer_all msg cs)
unfolding AllFit offer_all
AllFit-offer_all msg [] h = tt
AllFit-offer_all msg ((c, q) ∷ cs) (f, h) = (offer-length msg q f, AllFit-offer_all msg cs h)

channels-take_message :
    (ch : ℕ) (cs : List (ℕ × List Text)) → channels (take_message ch cs) ≡ channels cs
unfolding channels take_message
channels-take_message ch [] = refl
channels-take_message ch ((c, q) ∷ cs) = ground (arith, channels-take_message ch cs)

AllFit-take_message : (ch : ℕ) (cs : List (ℕ × List Text)) → AllFit cs → AllFit (take_message ch cs)
unfolding AllFit take_message
AllFit-take_message ch [] h = tt
AllFit-take_message ch ((c, []) ∷ cs) (f, h) = elim (Bool-cases (c == ch)) [
  | inl e ↦ rw e (f, h)
  | inr o ↦ rw o (f, AllFit-take_message ch cs h)
]
AllFit-take_message ch ((c, m ∷ ms) ∷ cs) (f, h) = elim (Bool-cases (c == ch)) [
  | inl e ↦ rw e (omega (arith, f), h)
  | inr o ↦ rw o (f, AllFit-take_message ch cs h)
]

-- What is left of the clients.
record IsLeft (ch : ℕ) (cs rest : List (ℕ × List Text)) : Type 0 where
  among : (x : ℕ) → In x (channels rest) → In x (channels cs) × (x ≢ ch)
  once : Distinct (channels cs) → Distinct (channels rest)
  fit : AllFit cs → AllFit rest

drop_client-IsLeft : (ch : ℕ) (cs : List (ℕ × List Text)) → IsLeft ch cs (drop_client ch cs)
unfolding drop_client channels AllFit
drop_client-IsLeft ch [] = record { among = λ x h. absurd h; once = λ d. d; fit = λ f. f }
drop_client-IsLeft ch ((c, q) ∷ cs) =
    let k = drop_client-IsLeft ch cs in
    elim (Bool-cases (c == ch)) [
      | inl e ↦ rw e (record {
        among = λ x h. let (there, other) = k.among x h in (inr there, other);
        once = λ (n, d). k.once d;
        fit = λ (f, fs). k.fit fs;
      })
      | inr o ↦ rw o (record {
        among = λ x h. elim h [
          | inl same ↦ (inl same, λ bad. ground (arith, o, same, bad))
          | inr later ↦ let (there, other) = k.among x later in (inr there, other)
        ];
        once = λ (n, d). ((λ h. n (k.among c h).0), k.once d);
        fit = λ (f, fs). (f, k.fit fs);
      })
    ]

is_client-In : (ch : ℕ) (cs : List (ℕ × List Text)) → is_client ch cs ≡ true → In ch (channels cs)
unfolding is_client channels
is_client-In ch [] h = cc
is_client-In ch ((c, q) ∷ cs) h = elim (Bool-cases (c == ch)) [
  | inl e ↦ inl (ground (arith, e))
  | inr o ↦ inr (is_client-In ch cs (ground (arith, o, h)))
]

unsubscribe-IsSafe : (h : EventHub) (ch : ℕ) → IsSafe h → IsSafe (unsubscribe h ch)
unfolding unsubscribe
unsubscribe-IsSafe h ch k = elim (Bool-cases (is_client ch h.clients)) [
  | inr absent ↦ rw absent k
  | inl there ↦
      let left = drop_client-IsLeft ch h.clients in
      let here = is_client-In ch h.clients there in
      rw there (record {
        once = left.once k.once;
        closed_once = (k.apart ch here, k.closed_once);
        apart = λ x m bad. elim bad [
          | inl same ↦ (left.among x m).1 (sym same)
          | inr closed ↦ k.apart x (left.among x m).0 closed
        ];
        old = λ x m. elim m [
          | inl a ↦ k.old x (inl (left.among x a).0)
          | inr b ↦ elim b [
            | inl same ↦ subst (λ y. y < h.next) same (k.old ch (inl here))
            | inr closed ↦ k.old x (inr closed)
          ]
        ];
        fit = left.fit k.fit;
      })
]

subscribe-IsSafe : (h : EventHub) → IsSafe h → IsSafe (subscribe h).0
unfolding subscribe
subscribe-IsSafe h k =
    let listed = channels-append h.clients h.next [] in
    record {
      once = subst Distinct (sym listed) (
          Distinct-last h.next (channels h.clients) k.once
            (λ m. ground (arith, k.old h.next (inl m))));
      closed_once = k.closed_once;
      apart = λ x m. elim (In-last x h.next (channels h.clients) (subst (In x) listed m)) [
        | inl same ↦ λ bad. ground (arith, same, k.old x (inr bad))
        | inr there ↦ k.apart x there
      ];
      old = λ x m. elim m [
        | inl a ↦ elim (In-last x h.next (channels h.clients) (subst (In x) listed a)) [
          | inl same ↦ omega (arith, same)
          | inr there ↦ omega (arith, k.old x (inl there))
        ]
        | inr b ↦ omega (arith, k.old x (inr b))
      ];
      fit = AllFit-append h.clients h.next k.fit;
    }

-- The same channels, with other queues.
requeued-IsSafe :
    (h : EventHub) (cs : List (ℕ × List Text))
    → channels cs ≡ channels h.clients
    → AllFit cs
    → IsSafe h
    → IsSafe (record h { clients = cs })
requeued-IsSafe h cs e f k = record {
  once = subst Distinct (sym e) k.once;
  closed_once = k.closed_once;
  apart = λ x m. k.apart x (subst (In x) e m);
  old = λ x m. elim m [ inl a ↦ k.old x (inl (subst (In x) e a)) | inr b ↦ k.old x (inr b) ];
  fit = f;
}

broadcast-IsSafe : (h : EventHub) (json : Option Text) → IsSafe h → IsSafe (broadcast h json)
unfolding broadcast
broadcast-IsSafe h none k = k
broadcast-IsSafe h (some msg) k =
    requeued-IsSafe h (offer_all msg h.clients) (channels-offer_all msg h.clients)
      (AllFit-offer_all msg h.clients k.fit) k

apply-IsSafe : (h : EventHub) (op : Op) → IsSafe h → IsSafe (apply h op)
unfolding apply broadcast_with_type
apply-IsSafe h subscribes k = subscribe-IsSafe h k
apply-IsSafe h (unsubscribes ch) k = unsubscribe-IsSafe h ch k
apply-IsSafe h (broadcasts json) k = broadcast-IsSafe h json k
apply-IsSafe h (typed t none) k = k
apply-IsSafe h (typed t (some json)) k = broadcast-IsSafe h (some (typed_message t json)) k
apply-IsSafe h (takes ch) k =
    requeued-IsSafe h (take_message ch h.clients) (channels-take_message ch h.clients)
      (AllFit-take_message ch h.clients k.fit) k

run-IsSafe' : (h : EventHub) (ops : List Op) → IsSafe h → IsSafe (run h ops)
unfolding run
run-IsSafe' h [] k = k
run-IsSafe' h (op ∷ ops) k = run-IsSafe' (apply h op) ops (apply-IsSafe h op k)

-- Whatever subscriptions, broadcasts and reads follow each other on a new hub: no client's channel is
-- closed, so that no message is sent on a closed channel; no channel is closed twice; and no queue
-- holds more than 64 messages.
pub run-IsSafe : (ops : List Op) → IsSafe (run new_hub ops)
unfolding channels AllFit
run-IsSafe ops = run-IsSafe' new_hub ops (record {
  once = tt;
  closed_once = tt;
  apart = λ x m. absurd m;
  old = λ x m. elim m [ inl a ↦ absurd a | inr b ↦ absurd b ];
  fit = tt;
})
