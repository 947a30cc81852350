-- ===== src/CtcConnection/Waking.antt =====
-- src/network/ctc_connection.cpp: no request is lost. Each one waits in a queue or in a list until
-- it is woken, and the destructor wakes those that still wait.
use cs4500project.CtcConnection
use cs4500project.Packet.Kind
use cs4500project.Schema
use cs4500project.Prelude.{
  Bool, Ensures, Ensures-bind, Ensures-if, Ensures-then, List, Option, Option-cases, [], arith,
  false, if◌then◌else◌, inl, inr, none, ok, refl, subst, true, ℕ, ◌++◌, ◌+◌, ◌==◌, ◌>>=◌, ◌∙◌, ◌∷◌,
  ◌≡◌,
}
use cs4500project.Connection.{ParseResult}
use cs4500project.Connection.Kept.{Keeps, receive_and_parse-Keeps}
use cs4500project.CtcConnection.{
  CtcConnection, ValueRequest, answer, parse_request_response, read_response, send_requests,
  take_request,
}
use cs4500project.CtcConnection.Life.{
  LivesTo, adds_request, begin_run, begins, changes_store, checks_requests, constructed,
  ctc_handler, destroy, receives, sends_keys, wake_all,
}
use cs4500project.DataFrame.{DataFrame}
use cs4500project.KvStore.{KvStore}
use cs4500project.Packet.{Packet}
use cs4500project.Schema.{Schema, same_string}
use cs4500project.Server.Clients.{sent}

-- How many of the requests are for a key.
unfoldable pub count_key : List ℕ → List ValueRequest → ℕ
count_key k [] = 0
count_key k (r ∷ rs) = (if Schema.same_string k r.key then 1 else 0) + count_key k rs

count_key-append :
    (k : List ℕ) (rs ts : List ValueRequest)
    → count_key k (rs ++ ts) ≡ count_key k rs + count_key k ts
unfolding count_key
count_key-append k [] ts = omega arith
count_key-append k (r ∷ rs) ts = omega (arith, count_key-append k rs ts)

-- The requests of a connection: those to be sent, those that wait, and those that have been woken.
abbrev requests_of : List ℕ → CtcConnection → ℕ
requests_of k c =
    count_key k c.request_queue + count_key k c.waiting_requests + count_key k c.notified

count_key-wake_all :
    (k : List ℕ) (rs notified : List ValueRequest)
    → count_key k (wake_all rs notified) ≡ count_key k rs + count_key k notified
unfolding count_key wake_all
count_key-wake_all k [] notified = omega arith
count_key-wake_all k (r ∷ rs) notified =
    omega (arith, count_key-wake_all k rs (record r { value = none } ∷ notified))

send_requests-waiting :
    (k : List ℕ) (queue waiting : List ValueRequest)
    → count_key k (send_requests queue waiting).1 ≡ count_key k queue + count_key k waiting
unfolding send_requests count_key
send_requests-waiting k [] waiting = omega arith
send_requests-waiting k (r ∷ queue) waiting =
    omega (
      arith,
      send_requests-waiting k queue (waiting ++ r ∷ []),
      count_key-append k waiting (r ∷ []),
    )

-- The requests are the same as often in both.
abbrev Same : CtcConnection → CtcConnection → Type 0
Same c c' = (k : List ℕ) → requests_of k c' ≡ requests_of k c

answer-Same :
    (c : CtcConnection) (key : List ℕ) (df : Option DataFrame)
    → Ensures (λ q. Same c q.1) (answer c key df)
unfolding answer
answer-Same c key df = elim (Option-cases (take_request key c.waiting_requests)) [
  | inl nothing ↦ rw (nothing, answer) (λ k. refl)
  | inr (q, found) ↦ rw (found, answer) tt
]

parse_request_response-Same :
    (c : CtcConnection) (p : Packet) → Ensures (λ q. Same c q.1) (parse_request_response c p)
unfolding parse_request_response
parse_request_response-Same c p =
    let P : ParseResult × CtcConnection → Type 0 = λ q. Same c q.1 in
    Ensures-if P (p.typ == Kind.value_response) _ _
      (Ensures-bind P (read_response p) _ λ r. answer-Same c r.0 r.1) (λ k. refl)

parse_data-Same :
    (c : CtcConnection) (s : KvStore) (p : Packet)
    → Ensures (λ q. Same c q.1) (CtcConnection.parse_data c s p)
unfolding CtcConnection.parse_data
parse_data-Same c s p =
    let P : ParseResult × CtcConnection × KvStore → Type 0 = λ q. Same c q.1 in
    Ensures-if P (p.typ == Kind.value_response) _ _
      (Ensures-then (λ q. Same c q.1) P (parse_request_response c p) _
        (parse_request_response-Same c p) (λ r h. h))
      (Ensures-if P (p.typ == Kind.value_request) _ _ (λ k. refl)
        (Ensures-if P (p.typ == Kind.key_list) _ _
          (Ensures-bind P (CtcConnection.update_keys c s p) _ (λ r. λ k. refl)) (λ k. refl)))

-- The handling of packets neither loses nor adds requests.
handler-Keeps :
    (registration : Packet) (sent : Bool) (n : List ℕ → ℕ)
    → Keeps (ctc_handler registration sent) (λ st. (k : List ℕ) → requests_of k st.0 ≡ n k)
unfolding ctc_handler
handler-Keeps registration sent n = record {
  keep_base = λ st c h. h;
  keep_parse = λ st p r st' e h k. handled st p (r, st') e k ∙ h k;
  keep_respond = λ st p st' e h k. responded st p st' e k ∙ h k;
}
  where
    handled :
        (st : CtcConnection × KvStore) (p : Packet) (q : ParseResult × (CtcConnection × KvStore))
        → (CtcConnection.parse_data st.0 st.1 p >>= λ r. ok (r.0, (r.1, r.2))) ≡ ok q
        → Same st.0 q.1.0
    handled st p q e =
        subst (Ensures (λ (x : ParseResult × (CtcConnection × KvStore)). Same st.0 x.1.0)) e (
          Ensures-then (λ x. Same st.0 x.1) (λ x. Same st.0 x.1.0)
            (CtcConnection.parse_data st.0 st.1 p) _ (parse_data-Same st.0 st.1 p) (λ r h. h))

    responded :
        (st : CtcConnection × KvStore) (p : Packet) (st' : CtcConnection × KvStore)
        → (CtcConnection.respond registration st.1 sent p >>= λ r. ok st) ≡ ok st'
        → Same st.0 st'.0
    responded st p st' e = subst (Ensures (λ (x : CtcConnection × KvStore). Same st.0 x.0)) e (
        Ensures-bind (λ x. Same st.0 x.0) (CtcConnection.respond registration st.1 sent p) _
          (λ r k. refl))

begin_run-Same :
    (receiver connected sent : Bool) (c : CtcConnection)
    → Same c (begin_run receiver connected sent c)
unfolding begin_run CtcConnection.finish_unless
begin_run-Same receiver connected sent c k = ground arith

finish_unless-Same : (sent : Bool) (c : CtcConnection) → Same c (CtcConnection.finish_unless sent c)
unfolding CtcConnection.finish_unless
finish_unless-Same true c k = refl
finish_unless-Same false c k = refl

-- Whatever has happened, the connection has the requests it started with and those that were added.
LivesTo-requests :
    {start st : CtcConnection × KvStore} {rs : List ValueRequest}
    → LivesTo start rs st
    → (k : List ℕ) → requests_of k st.0 ≡ requests_of k start.0 + count_key k rs
unfolding count_key CtcConnection.send_keys CtcConnection.check_requests CtcConnection.add_request
LivesTo-requests {start} (begins receiver connected done) k =
    begin_run-Same receiver connected done start.0 k ∙ omega arith
LivesTo-requests {start} (receives {rs = rs} {st = st} registration done fuel calls r run e) k =
    receive_and_parse-Keeps (ctc_handler registration done)
      (λ st'. (j : List ℕ) → requests_of j st'.0 ≡ requests_of j start.0 + count_key j rs)
      (handler-Keeps registration done (λ j. requests_of j start.0 + count_key j rs)) fuel st calls
      r (LivesTo-requests run) e k
LivesTo-requests (sends_keys {st = st} done run) k =
    finish_unless-Same done st.0 k ∙ LivesTo-requests run k
LivesTo-requests (checks_requests {st = st} run) k =
    let moved = send_requests-waiting k st.0.request_queue st.0.waiting_requests in
    let before = LivesTo-requests run k in omega arith
LivesTo-requests (adds_request {rs = rs} {st = st} r run) k =
    let before = LivesTo-requests run k in
    omega (arith, count_key-append k rs (r ∷ []), count_key-append k st.0.request_queue (r ∷ []))
LivesTo-requests (changes_store s run) k = LivesTo-requests run k

-- From the constructor on, whatever steps the connection and the node's other threads have taken,
-- none of which was undefined: when the connection is destroyed, as many requests for each key have
-- been woken as were added, and none waits any more.
pub destroy-woken :
    (other : List ℕ) (s : KvStore) (rs : List ValueRequest) (st : CtcConnection × KvStore)
    → LivesTo (constructed other, s) rs st
    → ((k : List ℕ) → count_key k (destroy st.0).notified ≡ count_key k rs)
      × ((destroy st.0).request_queue ≡ [])
      × ((destroy st.0).waiting_requests ≡ [])
unfolding destroy constructed count_key
destroy-woken other s rs st run = (
  λ k.
      let kept = LivesTo-requests run k in
      let queue = count_key-wake_all k st.0.request_queue st.0.notified in
      let all =
        count_key-wake_all k st.0.waiting_requests (wake_all st.0.request_queue st.0.notified) in
      omega arith,
  refl,
  refl,
)
