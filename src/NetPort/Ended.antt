-- ===== src/NetPort/Ended.antt =====
-- src/network/netport.cpp: the loop of `listen_on_socket` ends when it is to, and what `close_all`
-- does then.
use cs4500project.Prelude.{
  if◌then◌else◌, fault, undefined, ok, Bool, List, Option, [], false, some, ◌++◌, ◌∷◌, ◌≡◌, ◌⊎◌,
  inl, inr, Bool-cases,
}
use cs4500project.Prelude.Perm
use cs4500project.NetPort.{
  any_finished, Subclass, NetPort, clean_up_from, clean_up_closed, clean_up_all, accept_connection,
  Accepted, accepted, would_block, failed, work, Round, one_round, listen_loop, listen_on_socket,
  close_all, fresh,
}
use cs4500project.NetPort.Joined.{Owns, one_round-Owns, close_all-Closed, Closed}

-- What the functions of a subclass keep: a port that is stopped is not set running again.
pub record KeepsStopped {E S C : Type 0} (h : Subclass E S C) : Type 0 where
  pub set_stopped : (s : S) → h.is_running (h.with_running false s) ≡ false
  pub clean_up_stopped :
      (c : C) (s : S) → h.is_running s ≡ false → h.is_running (h.on_clean_up c s) ≡ false
  pub new_stopped : (s : S) → h.is_running s ≡ false → h.is_running (h.on_new_connection s) ≡ false
  pub work_stopped :
      (answers : E) (cs : List C) (s : S)
      → h.is_running s ≡ false
      → h.is_running (h.main_loop_work answers cs s).0 ≡ false

-- A round in which `accept` fails, or another thread stops the port.
abbrev pub Stops : {E S C : Type 0} → Subclass E S C → Round E S C → Type 0
Stops {S} h r = (r.accepting ≡ failed) ⊎ ((s : S) → h.is_running (r.others s) ≡ false)

module _ {E S C : Type 0} (h : Subclass E S C) (keeps : KeepsStopped h) where
  IsStopped : NetPort S C → Type 0
  IsStopped np = h.is_running np.own ≡ false

  clean_up_from-stopped :
      (f : C → Bool) (cs : List C) (own : S) (joined : List C)
      → h.is_running own ≡ false
      → h.is_running (clean_up_from h f cs own joined).1 ≡ false
  unfolding clean_up_from
  clean_up_from-stopped f [] own joined e = e
  clean_up_from-stopped f (c ∷ cs) own joined e = elim (Bool-cases (f c)) [
    | inl e_true ↦
        rw (e_true, clean_up_from)
          (clean_up_from-stopped f cs (h.on_clean_up c own) (joined ++ c ∷ [])
            (keeps.clean_up_stopped c own e))
    | inr e_false ↦ rw (e_false, clean_up_from) (clean_up_from-stopped f cs own joined e)
  ]

  clean_up_all-IsStopped :
      (fs : List (C → Bool)) (np : NetPort S C) → IsStopped np → IsStopped (clean_up_all h fs np)
  unfolding clean_up_all clean_up_closed IsStopped
  clean_up_all-IsStopped [] np e = e
  clean_up_all-IsStopped (f ∷ fs) np e =
      clean_up_all-IsStopped fs (clean_up_closed h f np)
        (clean_up_from-stopped f np.connections np.own np.joined e)

  accept_connection-IsStopped :
      (a : Accepted C) (np : NetPort S C) → IsStopped np → IsStopped (accept_connection h a np)
  unfolding accept_connection IsStopped
  accept_connection-IsStopped (accepted c) np e = keeps.new_stopped np.own e
  accept_connection-IsStopped would_block np e = e
  accept_connection-IsStopped failed np e = keeps.set_stopped np.own

  one_round-IsStopped :
      (r : Round E S C) (np : NetPort S C) → Stops h r → IsStopped (one_round h r np)
  unfolding one_round work accept_connection clean_up_closed IsStopped
  one_round-IsStopped r np stops =
      let np1 = clean_up_all h r.others_clean (record np { own = r.others np.own }) in
      let np2 = accept_connection h r.accepting np1 in
      let stopped : IsStopped np2 = elim stops [
        | inl e ↦ rw e (keeps.set_stopped np1.own)
        | inr lowers ↦ accept_connection-IsStopped r.accepting np1 (
            clean_up_all-IsStopped r.others_clean (record np { own = r.others np.own })
              (lowers np.own))
      ] in
      let np3 = clean_up_closed h r.is_finished np2 in
      keeps.work_stopped r.answers np3.connections np3.own
        (clean_up_from-stopped r.is_finished np2.connections np2.own np2.joined stopped)

  listen_loop-stopped :
      (rounds : List (Round E S C)) (np : NetPort S C)
      → IsStopped np
      → listen_loop h rounds np ≡ some (record np { own = h.with_running false np.own })
  unfolding listen_loop IsStopped
  listen_loop-stopped [] np e = rw e
  listen_loop-stopped (r ∷ rounds) np e = rw (e, listen_loop)

  Ended : Option (NetPort S C) → Type 0
  Ended result = (np : NetPort S C) × (result ≡ some np) × IsStopped np × Owns np

  stopped_ends :
      (rounds : List (Round E S C)) (np : NetPort S C)
      → IsStopped np
      → Owns np
      → Ended (listen_loop h rounds np)
  unfolding Ended IsStopped
  stopped_ends rounds np e owns = (
    record np { own = h.with_running false np.own },
    listen_loop-stopped rounds np e,
    keeps.set_stopped np.own,
    owns,
  )

  listen_loop-Ended :
      (before : List (Round E S C)) (r : Round E S C) (after : List (Round E S C))
      (np : NetPort S C)
      → Owns np
      → Stops h r
      → Ended (listen_loop h (before ++ r ∷ after) np)
  unfolding listen_loop Ended IsStopped
  listen_loop-Ended [] r after np owns stops = elim (Bool-cases (h.is_running np.own)) [
    | inl e_true ↦ rw e_true (
        stopped_ends after (one_round h r np) (one_round-IsStopped r np stops)
          (one_round-Owns h r np owns))
    | inr e_false ↦ stopped_ends (r ∷ after) np e_false owns
  ]
  listen_loop-Ended (x ∷ before) r after np owns stops = elim (Bool-cases (h.is_running np.own)) [
    | inl e_true ↦
        rw e_true
          (listen_loop-Ended before r after (one_round h x np) (one_round-Owns h x np owns) stops)
    | inr e_false ↦ stopped_ends (x ∷ before ++ r ∷ after) np e_false owns
  ]

  -- Once a round comes in which `accept` fails or another thread stops the port, the call of
  -- `listen_on_socket` ends and the port is stopped. If none of the connections is finished then,
  -- `close_all` leaves no connection and has joined each thread that was started for a connection
  -- of the list, by a round or by the subclass's work in the loop, just as often as it was started;
  -- if one is finished, `close_all` calls a pure virtual function, which is undefined.
  pub listen_on_socket-joined :
      (listens : Bool) (answers : E) (before : List (Round E S C)) (r : Round E S C)
      (after : List (Round E S C)) (own : S) (is_finished : C → Bool)
      → Stops h r
      → (np : NetPort S C) × (listen_on_socket h listens answers (before ++ r ∷ after) (fresh own)
          ≡ some np)
        × (h.is_running np.own ≡ false)
        × (closed : NetPort S C) × Closed h closed
        × (close_all h is_finished np
            ≡ (if any_finished h is_finished np.connections then fault undefined else ok closed))
  unfolding listen_on_socket fresh Ended IsStopped
  listen_on_socket-joined listens answers before r after own is_finished stops =
      let begun = h.initial answers (h.with_running listens own) in
      let (np, e, stopped, owns) = listen_loop-Ended before r after (fresh begun) Perm.rfl stops in
      let (closed, left, closes) = close_all-Closed h is_finished np owns in
      (np, e, stopped, closed, left, closes)
