-- ===== src/NetPort.antt =====
-- src/network/netport.cpp and include/network/netport.h: what the server and a client have in
-- common, the list of connections with a thread for each, and the loop that waits for connections.
-- What the subclasses add is a record of functions.
pub mod Joined
pub mod Ended
use cs4500project.Prelude.{
  ◌||◌, Run, ok, fault, undefined, Bool, List, Option, [], false, if◌then◌else◌, none, some, true,
  ◌++◌, ◌∷◌,
}

-- What `accept` answers: a connection, that none is waiting, or another error.
pub data Accepted (C : Type 0) : Type 0 where
  accepted : C → Accepted C
  would_block failed : Accepted C

-- The state `S` of a subclass, which holds `_running`, and its virtual functions on connections
-- `C`. What the operating system answers is an `E`.
pub record Subclass (E S C : Type 0) : Type 0 where
  pub is_running : S → Bool
  pub with_running : Bool → S → S
  pub initial : E → S → S
  pub on_clean_up : C → S → S
  pub on_new_connection : S → S
  -- The connections that it adds, too.
  pub main_loop_work : E → List C → S → S × List C

-- The threads that were started and those that were joined are kept in that order.
pub record NetPort (S C : Type 0) : Type 0 where
  pub own : S
  pub connections : List C
  pub started : List C
  pub joined : List C

-- One round of the loop: what other threads do to the state and the clean-ups that they make before
-- it, what `accept` answers, and which connections are finished at the clean-up.
pub record Round (E S C : Type 0) : Type 0 where
  pub others : S → S
  pub others_clean : List (C → Bool)
  pub accepting : Accepted C
  pub is_finished : C → Bool
  pub answers : E

module _ {E S C : Type 0} (h : Subclass E S C) where
  -- The loop of `_clean_up_closed`: the connections that stay, the state and the joined threads.
  unfoldable pub clean_up_from : (C → Bool) → List C → S → List C → List C × S × List C
  clean_up_from is_finished [] own joined = ([], own, joined)
  clean_up_from is_finished (c ∷ cs) own joined = elim (is_finished c) [
    | true ↦ clean_up_from is_finished cs (h.on_clean_up c own) (joined ++ c ∷ [])
    | false ↦
        let (kept, own', joined') = clean_up_from is_finished cs own joined in
        (c ∷ kept, own', joined')
  ]

  unfoldable pub clean_up_closed : (C → Bool) → NetPort S C → NetPort S C
  unfolding clean_up_from
  clean_up_closed is_finished np =
      let (kept, own, joined) = clean_up_from is_finished np.connections np.own np.joined in
      record np { own = own; connections = kept; joined = joined }

  unfoldable pub clean_up_all : List (C → Bool) → NetPort S C → NetPort S C
  unfolding clean_up_closed
  clean_up_all [] np = np
  clean_up_all (is_finished ∷ rest) np = clean_up_all rest (clean_up_closed is_finished np)

  -- `_accept_connection` and, after a connection, `_on_new_connection`.
  unfoldable pub accept_connection : Accepted C → NetPort S C → NetPort S C
  accept_connection (accepted c) np = record np {
    own = h.on_new_connection np.own;
    connections = np.connections ++ c ∷ [];
    started = np.started ++ c ∷ [];
  }
  accept_connection would_block np = np
  accept_connection failed np = record np { own = h.with_running false np.own }

  -- `_main_loop_work`, which starts a thread for each connection that it adds.
  unfoldable pub work : E → NetPort S C → NetPort S C
  work answers np =
      let (own, added) = h.main_loop_work answers np.connections np.own in
      record np { own = own; connections = np.connections ++ added; started = np.started ++ added }

  unfoldable pub one_round : Round E S C → NetPort S C → NetPort S C
  unfolding clean_up_all accept_connection work
  one_round r np =
      let np' = clean_up_all r.others_clean (record np { own = r.others np.own }) in
      work r.answers (clean_up_closed r.is_finished (accept_connection r.accepting np'))

  -- The loop of `listen_on_socket`; `none` is a loop that still runs after these rounds. The
  -- watchdog is turned off.
  unfoldable pub listen_loop : List (Round E S C) → NetPort S C → Option (NetPort S C)
  unfolding one_round
  listen_loop [] np =
      if h.is_running np.own then none else some (record np { own = h.with_running false np.own })
  listen_loop (r ∷ rounds) np = elim (h.is_running np.own) [
    | false ↦ some (record np { own = h.with_running false np.own })
    | true ↦ listen_loop rounds (one_round r np)
  ]

  -- Whether the call of `listen` succeeds is an argument.
  unfoldable pub listen_on_socket :
      Bool → E → List (Round E S C) → NetPort S C → Option (NetPort S C)
  unfolding listen_loop
  listen_on_socket listens answers rounds np =
      listen_loop rounds (record np { own = h.initial answers (h.with_running listens np.own) })

  -- `close_all`: each thread is asked to finish and joined, the first one first. It runs in the
  -- destructor of `NetPort` only, behind those of the subclass: the clean-up's call of
  -- `_on_clean_up` for a connection that is finished is one of a pure virtual function there, which
  -- the language leaves undefined.
  unfoldable pub any_finished : (C → Bool) → List C → Bool
  any_finished is_finished [] = false
  any_finished is_finished (c ∷ cs) = is_finished c || any_finished is_finished cs

  unfoldable pub join_each : List C → List C → List C
  join_each [] joined = joined
  join_each (c ∷ cs) joined = join_each cs (joined ++ c ∷ [])

  unfoldable pub close_all : (C → Bool) → NetPort S C → Run (NetPort S C)
  unfolding any_finished join_each
  close_all is_finished np =
      if any_finished is_finished np.connections
      then fault undefined
      else ok (record np { connections = []; joined = join_each np.connections np.joined })

-- A port as the constructor makes it.
unfoldable pub fresh : {S C : Type 0} → S → NetPort S C
fresh own = record { own = own; connections = []; started = []; joined = [] }
