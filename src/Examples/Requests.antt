-- ===== src/Examples/Requests.antt =====
-- Requests for values, and the rounds of a server, applied to small runs.
use cs4500project.CtcConnection
use cs4500project.KvStore
use cs4500project.Prelude.{List, [], arith, false, none, refl, true, ℕ, ◌∷◌, ◌≡◌}
use cs4500project.CtcConnection.{CtcConnection, ValueRequest}
use cs4500project.CtcConnection.Life.{
  LivesTo, adds_request, begin_run, begins, checks_requests, constructed, destroy,
}
use cs4500project.CtcConnection.Waking.{count_key, destroy-woken}
use cs4500project.KvStore.{KvStore}
use cs4500project.Server.{Server, deliver}
use cs4500project.Server.Rounds.{deliver-first}

abbrev a_request : ValueRequest
a_request = record { key = b'k' ∷ []; value = none }

-- A request is added and sent, and the other node never answers.
unanswered :
    LivesTo
      (constructed [], KvStore.empty)
      (a_request ∷ [])
      (
        (CtcConnection.check_requests
            (CtcConnection.add_request (begin_run true true true (constructed [])) a_request)).1,
        KvStore.empty,
      )
unanswered = checks_requests (adds_request a_request (begins true true true))

destroy-woken_example :
    ((k : List ℕ)
      → count_key k
          (destroy
            (CtcConnection.check_requests (
              CtcConnection.add_request
                (begin_run true true true (constructed []))
                a_request)).1).notified
        ≡ count_key k (a_request ∷ []))
    × ((destroy
          (CtcConnection.check_requests (
            CtcConnection.add_request
              (begin_run true true true (constructed []))
              a_request)).1).request_queue
        ≡ [])
    × ((destroy
          (CtcConnection.check_requests (
            CtcConnection.add_request
              (begin_run true true true (constructed []))
              a_request)).1).waiting_requests
        ≡ [])
destroy-woken_example =
    destroy-woken [] KvStore.empty (a_request ∷ [])
      (
        (CtcConnection.check_requests
            (CtcConnection.add_request (begin_run true true true (constructed [])) a_request)).1,
        KvStore.empty,
      )
      unanswered

-- Two connections, the first of which runs twice before the second runs at all.
abbrev noted : Server
noted = record {
  clients = [];
  passed_update = 0;
  expected_update = 2;
  new_update = true;
  running = true;
}

deliver-first_example :
    deliver (1 ∷ 1 ∷ 2 ∷ 2 ∷ []) noted ≡ (1 ∷ 1 ∷ [], record noted { new_update = false })
deliver-first_example = deliver-first (1 ∷ 1 ∷ []) (2 ∷ 2 ∷ []) noted refl refl refl (omega arith)
