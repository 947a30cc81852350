-- ===== src/Server/Rounds.antt =====
-- src/network/server_connection.cpp, `run`: which connections are sent the list of clients.
use cs4500project.Prelude.{
  Bool, List, Option, [], ap, arith, false, if_false, if_true, leb, length, none, refl, some, sym,
  true, ℕ, ◌++◌, ◌+◌, ◌<◌, ◌∙◌, ◌∷◌, ◌≡◌,
}
use cs4500project.Packet.{Packet}
use cs4500project.Server.{Server, deliver, get_clients}

-- A round that sends the list, and one that does not.
deliver-sends :
    (c : ℕ) (rounds : List ℕ) (s s' : Server)
    → s.new_update ≡ true
    → (get_clients s).1 ≡ s'
    → deliver (c ∷ rounds) s ≡ (c ∷ (deliver rounds s').0, (deliver rounds s').1)
unfolding deliver
deliver-sends c rounds s s' noted e =
    ap
      (λ (r : Option Packet × Bool × Server). (
        (elim r.0 [ none ↦ (deliver rounds r.2).0 | some p ↦ c ∷ (deliver rounds r.2).0 ]),
        (deliver rounds r.2).1,
      ))
      (if_true s.new_update (some (get_clients s).0, true, (get_clients s).1) (none, true, s) noted
        ∙ ap (λ (t : Server). (some (get_clients s).0, true, t)) e)

deliver-quiet : (rounds : List ℕ) (s : Server) → s.new_update ≡ false → deliver rounds s ≡ ([], s)
unfolding deliver
deliver-quiet [] s q = refl
deliver-quiet (c ∷ rounds) s q =
    ap
      (λ (r : Option Packet × Bool × Server). (
        (elim r.0 [ none ↦ (deliver rounds r.2).0 | some p ↦ c ∷ (deliver rounds r.2).0 ]),
        (deliver rounds r.2).1,
      ))
      (if_false s.new_update (some (get_clients s).0, true, (get_clients s).1) (none, true, s) q)
    ∙ deliver-quiet rounds s q

deliver-noted :
    (rounds rest : List ℕ) (s : Server)
    → s.new_update ≡ true
    → s.expected_update ≡ s.passed_update + length rounds
    → 0 < length rounds
    → deliver (rounds ++ rest) s ≡ (rounds, record s { passed_update = 0; new_update = false })
unfolding get_clients
deliver-noted [] rest s noted e pos = absurd (omega arith)
deliver-noted (c ∷ []) rest s noted e pos =
    let last : leb s.expected_update (s.passed_update + 1) ≡ true = ground arith in
    let s' : Server = record s { passed_update = 0; new_update = false } in
    deliver-sends c rest s s' noted (
      if_true (leb s.expected_update (s.passed_update + 1)) s'
        (record s { passed_update = s.passed_update + 1 }) last)
    ∙ ap (λ (r : List ℕ × Server). (c ∷ r.0, r.1)) (deliver-quiet rest s' refl)
deliver-noted (c ∷ c' ∷ rounds) rest s noted e pos =
    let more : leb s.expected_update (s.passed_update + 1) ≡ false = ground arith in
    let s' : Server = record s { passed_update = s.passed_update + 1 } in
    deliver-sends c (c' ∷ (rounds ++ rest)) s s' noted (
      if_false (leb s.expected_update (s.passed_update + 1))
        (record s { passed_update = 0; new_update = false }) s' more)
    ∙ ap (λ (r : List ℕ × Server). (c ∷ r.0, r.1))
        (deliver-noted (c' ∷ rounds) rest s' noted (omega arith) (omega arith))

-- While an update is noted for so many connections and none has been sent the list yet, the list is
-- sent in the next so many rounds, whichever connections' rounds these are, and then in none until
-- the next update: a connection that runs twice is sent the list twice, and another one not at all.
pub deliver-first :
    (rounds rest : List ℕ) (s : Server)
    → s.new_update ≡ true
    → s.passed_update ≡ 0
    → s.expected_update ≡ length rounds
    → 0 < length rounds
    → deliver (rounds ++ rest) s ≡ (rounds, record s { new_update = false })
deliver-first rounds rest s noted passed e pos =
    deliver-noted rounds rest s noted (omega arith) pos
    ∙ ap (λ n. (rounds, record s { passed_update = n; new_update = false })) (sym passed)
