-- ===== src/NetPort/Joined.antt =====
-- src/network/netport.cpp: no thread that is started is lost, and `close_all` joins each one once.
use cs4500project.Prelude.{
  if◌then◌else◌, fault, undefined, ok, refl, Bool, List, [], ◌++◌, ◌∷◌, Perm, append_assoc,
  append-nil, sym, ◌≡◌, ◌∙◌, perm_middle, inl, inr, Bool-cases, subst,
}
use cs4500project.Prelude.Perm
use cs4500project.NetPort.{
  any_finished, Subclass, NetPort, clean_up_from, clean_up_closed, clean_up_all, accept_connection,
  Accepted, accepted, would_block, failed, work, Round, one_round, join_each, close_all,
}

-- The threads that were started are those that were joined and those of the connections.
abbrev pub Owns : {S C : Type 0} → NetPort S C → Type 0
Owns np = Perm np.started (np.joined ++ np.connections)

extended-Owns :
    {S C : Type 0} (np : NetPort S C) (own : S) (added : List C)
    → Owns np
    → Owns (record np {
      own = own;
      connections = np.connections ++ added;
      started = np.started ++ added;
    })
extended-Owns np own added p =
    subst (Perm (np.started ++ added)) (append_assoc np.joined np.connections added)
      (Perm.append_right added p)

join_each_lem :
    {E S C : Type 0} (h : Subclass E S C) (cs joined : List C)
    → join_each h cs joined ≡ joined ++ cs
unfolding join_each
join_each_lem h [] joined = sym (append-nil joined)
join_each_lem h (c ∷ cs) joined =
    join_each_lem h cs (joined ++ c ∷ []) ∙ append_assoc joined (c ∷ []) cs

module _ {E S C : Type 0} (h : Subclass E S C) where
  clean_up_from-perm :
      (is_finished : C → Bool) (cs : List C) (own : S) (joined : List C)
      → Perm (joined ++ cs) (
          (clean_up_from h is_finished cs own joined).2
          ++ (clean_up_from h is_finished cs own joined).0)
  unfolding clean_up_from
  clean_up_from-perm f [] own joined = Perm.rfl
  clean_up_from-perm f (c ∷ cs) own joined = elim (Bool-cases (f c)) [
    | inl e_true ↦
        rw (e_true, clean_up_from, sym (append_assoc joined (c ∷ []) cs))
          (clean_up_from-perm f cs (h.on_clean_up c own) (joined ++ c ∷ []))
    | inr e_false ↦
        rw (e_false, clean_up_from)
          (Perm.trans (perm_middle joined cs) (
            Perm.trans (Perm.cons c (clean_up_from-perm f cs own joined)) (
              Perm.symm (
                perm_middle (clean_up_from h f cs own joined).2
                  (clean_up_from h f cs own joined).0))))
  ]

  clean_up_closed-Owns : (f : C → Bool) (np : NetPort S C) → Owns np → Owns (clean_up_closed h f np)
  unfolding clean_up_closed
  clean_up_closed-Owns f np owns =
      Perm.trans owns (clean_up_from-perm f np.connections np.own np.joined)

  clean_up_all-Owns :
      (fs : List (C → Bool)) (np : NetPort S C) → Owns np → Owns (clean_up_all h fs np)
  unfolding clean_up_all
  clean_up_all-Owns [] np owns = owns
  clean_up_all-Owns (f ∷ fs) np owns = clean_up_all-Owns fs _ (clean_up_closed-Owns f np owns)

  accept_connection-Owns :
      (a : Accepted C) (np : NetPort S C) → Owns np → Owns (accept_connection h a np)
  unfolding accept_connection
  accept_connection-Owns (accepted c) np owns =
      extended-Owns np (h.on_new_connection np.own) (c ∷ []) owns
  accept_connection-Owns would_block np owns = owns
  accept_connection-Owns failed np owns = owns

  work-Owns : (answers : E) (np : NetPort S C) → Owns np → Owns (work h answers np)
  unfolding work
  work-Owns answers np owns =
      let worked = h.main_loop_work answers np.connections np.own in
      extended-Owns np worked.0 worked.1 owns

  pub one_round-Owns : (r : Round E S C) (np : NetPort S C) → Owns np → Owns (one_round h r np)
  unfolding one_round
  one_round-Owns r np owns =
      let np0 : NetPort S C = record np { own = r.others np.own } in
      let np1 = clean_up_all h r.others_clean np0 in
      let np2 = accept_connection h r.accepting np1 in
      let owns2 =
        accept_connection-Owns r.accepting np1 (clean_up_all-Owns r.others_clean np0 owns) in
      work-Owns r.answers (clean_up_closed h r.is_finished np2)
        (clean_up_closed-Owns r.is_finished np2 owns2)

  -- What `close_all` leaves: no connections, and each thread of one joined as often as started.
  abbrev pub Closed : NetPort S C → Type 0
  Closed np = (np.connections ≡ []) × Perm np.started np.joined

  pub close_all-Closed :
      (f : C → Bool) (np : NetPort S C)
      → Owns np
      → (closed : NetPort S C) × Closed closed
        × (close_all h f np
            ≡ (if any_finished h f np.connections then fault undefined else ok closed))
  unfolding close_all
  close_all-Closed f np owns = (
    record np { connections = []; joined = join_each h np.connections np.joined },
    (refl, rw (join_each_lem h np.connections np.joined) owns),
    refl,
  )
