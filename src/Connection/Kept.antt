-- ===== src/Connection/Kept.antt =====
-- src/network/connection.cpp, `receive_and_parse`: what the handling of each packet keeps holds of
-- the state when the call returns.
use cs4500project.Packet
use cs4500project.Prelude.{
  Bool, List, Option, Run, false, fault, ltb, none, ok, refl, some, subst, suc, true, zero, ℕ,
  ◌>>=◌, ◌≡◌,
}
use cs4500project.Connection.{
  Connection, Handler, ParseResult, Received, parse_error, parse_loop, receive_and_parse,
  receive_data, response, success, unpack,
}
use cs4500project.Packet.{Packet}

-- What holds of a state is kept by whatever happens to the buffer, and by the handling of a packet.
pub record Keeps {S : Type 0} (h : Handler S) (P : S → Type 0) : Type 0 where
  pub keep_base : (s : S) (c : Connection) → P s → P (h.with_base s c)
  pub keep_parse :
      (s : S) (p : Packet) (r : ParseResult) (s' : S) → h.parse s p ≡ ok (r, s') → P s → P s'
  pub keep_respond : (s : S) (p : Packet) (s' : S) → h.respond s p ≡ ok s' → P s → P s'

module _ {S : Type 0} (h : Handler S) (P : S → Type 0) (keeps : Keeps h P) where
  -- A call that returns does so in a state in which `P` holds.
  abbrev Ends : Run (Option (Bool × S × List Received)) → Type 0
  Ends (fault why) = Unit
  Ends (ok none) = Unit
  Ends (ok (some r)) = P r.1

  Ends-bind :
      {X : Type 0} (m : Run X) (f : X → Run (Option (Bool × S × List Received)))
      → ((x : X) → m ≡ ok x → Ends (f x))
      → Ends (m >>= f)
  Ends-bind (fault why) f k = tt
  Ends-bind (ok x) f k = k x refl

  Ends-bool :
      (b : Bool) (f g : Run (Option (Bool × S × List Received)))
      → Ends f
      → Ends g
      → Ends (elim b [ false ↦ f | true ↦ g ])
  Ends-bool false f g a b = a
  Ends-bool true f g a b = b

  Ends-option :
      {X : Type 0} (u : Option X) (n : Run (Option (Bool × S × List Received)))
      (f : X → Run (Option (Bool × S × List Received)))
      → Ends n
      → ((x : X) → Ends (f x))
      → Ends (elim u [ none ↦ n | some x ↦ f x ])
  Ends-option none n f a b = a
  Ends-option (some x) n f a b = b x

  Ends-result :
      (r : ParseResult) (f g k : Run (Option (Bool × S × List Received)))
      → Ends f
      → Ends g
      → Ends k
      → Ends (elim r [ success ↦ f | response ↦ g | parse_error ↦ k ])
  Ends-result success f g k a b c = a
  Ends-result response f g k a b c = b
  Ends-result parse_error f g k a b c = c

  parse_loop-Ends :
      (fuel : ℕ) (s : S) (calls : List Received) (packet : Packet)
      → P s
      → Ends (parse_loop h fuel s calls packet)
  unfolding parse_loop
  parse_loop-Ends zero s calls packet p = tt
  parse_loop-Ends (suc fuel) s calls packet p = Ends-bool (ltb 0 (h.base s).buf_pos) _ _ p (
      Ends-bind (unpack fuel (h.base s) calls packet) _ λ unpacked _.
        Ends-option unpacked _ _ tt λ u.
          let s' = h.with_base s u.1 in
          Ends-bool u.0 _ _ (keeps.keep_base s u.1 p) (
            Ends-bind (h.parse s' u.3) _ λ parsed e.
              let p' = keeps.keep_parse s' u.3 parsed.0 parsed.1 e (keeps.keep_base s u.1 p) in
              Ends-result parsed.0 _ _ _ p'
                (Ends-bind (h.respond parsed.1 u.3) _ λ s₃ e'.
                  parse_loop-Ends fuel s₃ u.2 u.3 (keeps.keep_respond parsed.1 u.3 s₃ e' p'))
                p'))

  -- What is kept holds of the state when the call returns.
  pub receive_and_parse-Keeps :
      (fuel : ℕ) (s : S) (calls : List Received) (r : Bool × S × List Received)
      → P s
      → receive_and_parse h fuel s calls ≡ ok (some r)
      → P r.1
  unfolding receive_and_parse
  receive_and_parse-Keeps fuel s calls r p e =
      let received = receive_data (h.base s) calls in
      let s' = h.with_base s received.1 in
      let ends : Ends (receive_and_parse h fuel s calls) =
        Ends-option received.0 _ _ (keeps.keep_base s received.1 p)
          (λ n. parse_loop-Ends fuel s' received.2 Packet.blank (keeps.keep_base s received.1 p)) in
      subst Ends e ends
