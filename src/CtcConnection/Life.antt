-- ===== src/CtcConnection/Life.antt =====
-- src/network/ctc_connection.cpp: the life of one node's part of a connection, from the constructor
-- to the destructor, with what the other threads of the node do meanwhile.
use cs4500project.CtcConnection
use cs4500project.Prelude.{
  Bool, List, [], false, if◌then◌else◌, none, ok, replicate, some, ℕ, ◌++◌, ◌>>=◌, ◌∷◌, ◌≡◌,
}
use cs4500project.Connection.{Handler, Received, buffer_size, receive_and_parse}
use cs4500project.CtcConnection.{CtcConnection, ValueRequest, respond}
use cs4500project.KvStore.{KvStore}
use cs4500project.Packet.{Packet}
use cs4500project.Server.Clients.{sent}

-- A connection as the constructor makes it: the buffer is all zeros.
unfoldable pub constructed : List ℕ → CtcConnection
constructed other = record {
  base = record {
    buffer = replicate buffer_size 0;
    buf_pos = 0;
    finished = false;
    conn_other = other;
  };
  request_queue = [];
  waiting_requests = [];
  notified = [];
}

-- The loops of the destructor: each request is woken without a value, the first one first.
unfoldable pub wake_all : List ValueRequest → List ValueRequest → List ValueRequest
wake_all [] notified = notified
wake_all (r ∷ requests) notified = wake_all requests (record r { value = none } ∷ notified)

unfoldable pub destroy : CtcConnection → CtcConnection
unfolding wake_all
destroy c = record c {
  request_queue = [];
  waiting_requests = [];
  notified = wake_all c.waiting_requests (wake_all c.request_queue c.notified);
}

-- The beginning of `run`: `_as_client` connects and sends its id, `_as_receiver` does nothing.
-- Whether the target is reached and the packet is sent are arguments.
unfoldable pub begin_run : Bool → Bool → Bool → CtcConnection → CtcConnection
begin_run receiver connected sent c =
    if receiver
    then c
    else CtcConnection.finish_unless sent (CtcConnection.finish_unless connected c)

-- The connection with the store of its node, as `receive_and_parse` uses them.
unfoldable pub ctc_handler : Packet → Bool → Handler (CtcConnection × KvStore)
ctc_handler registration sent = record {
  base = λ st. st.0.base;
  with_base = λ st b. (record st.0 { base = b }, st.1);
  parse = λ st p. CtcConnection.parse_data st.0 st.1 p >>= λ r. ok (r.0, (r.1, r.2));
  respond = λ st p. CtcConnection.respond registration st.1 sent p >>= λ r. ok st;
}

-- The steps of `run`'s loop and of the node's other threads, in any order, with the requests that
-- were added. A step holds the locks that it takes for all of its time, and the store may change at
-- any time.
pub data LivesTo (start : CtcConnection × KvStore)
    : List ValueRequest → CtcConnection × KvStore → Type 0 where
  begins :
      (receiver connected sent : Bool)
      → LivesTo start [] (begin_run receiver connected sent start.0, start.1)
  receives :
      {rs : List ValueRequest} {st : CtcConnection × KvStore} (registration : Packet) (sent : Bool)
      (fuel : ℕ) (calls : List Received) (r : Bool × (CtcConnection × KvStore) × List Received)
      → LivesTo start rs st
      → receive_and_parse (ctc_handler registration sent) fuel st calls ≡ ok (some r)
      → LivesTo start rs r.1
  sends_keys :
      {rs : List ValueRequest} {st : CtcConnection × KvStore} (sent : Bool)
      → LivesTo start rs st
      → LivesTo start rs ((CtcConnection.send_keys st.1 sent st.0).1, st.1)
  checks_requests :
      {rs : List ValueRequest} {st : CtcConnection × KvStore}
      → LivesTo start rs st
      → LivesTo start rs ((CtcConnection.check_requests st.0).1, st.1)
  adds_request :
      {rs : List ValueRequest} {st : CtcConnection × KvStore} (r : ValueRequest)
      → LivesTo start rs st
      → LivesTo start (rs ++ r ∷ []) (CtcConnection.add_request st.0 r, st.1)
  changes_store :
      {rs : List ValueRequest} {st : CtcConnection × KvStore} (s : KvStore)
      → LivesTo start rs st
      → LivesTo start rs (st.0, s)
