-- ===== src/Options/Unset.antt =====
-- `parse_arguments` of src/util/demo.cpp: the port is never read.
use cs4500project.Prelude.{
  Bool, List, Option, [], false, if◌then◌else◌, inl, inr, none, not, refl, some, subst, true, ℕ,
  ◌||◌, ◌∷◌, ◌≡◌, ◌⊎◌,
}
use cs4500project.Options.{
  Action, Options, Parsed, changes, demo_act, exits, helps, ignored, is_long, is_short,
  parse_arguments, parse_from, parsed, takes_next,
}

-- The action leaves the port as it is.
KeepsPort : ℕ → Action Options → Type 0
KeepsPort port helps = Unit
KeepsPort port ignored = Unit
KeepsPort port (changes o) = o.server_port ≡ port
KeepsPort port (takes_next take_value) =
    (text : Option (List ℕ)) → (o : Options) × (take_value text ≡ parsed o) × (o.server_port ≡ port)

either_branch :
    {A : Type 0} (P : A → Type 0) (b : Bool) {x y : A}
    → (b ≡ true → P x)
    → (b ≡ false → P y)
    → P (if b then x else y)
either_branch P true f g = f refl
either_branch P false f g = g refl

demo_act-KeepsPort :
    (stoi : List ℕ → Option ℕ) (arg : List ℕ) (o : Options)
    → KeepsPort o.server_port (demo_act stoi arg o)
unfolding demo_act KeepsPort
demo_act-KeepsPort stoi arg o =
    let keeps = KeepsPort o.server_port in
    either_branch keeps (is_long arg "help") (λ _. tt)
      λ _.
        either_branch keeps (is_long arg "server") (λ _. refl)
          λ not_server.
            either_branch keeps (is_long arg "producer") (λ _. refl)
              λ _.
                either_branch keeps (is_long arg "counter") (λ _. refl)
                  λ _.
                    either_branch keeps (is_long arg "summarizer") (λ _. refl)
                      λ _.
                        either_branch keeps (is_long arg "address" || not (is_short arg "ip"))
                          (λ _ text. (record o { ip = text }, refl, refl))
                          λ _. rw (not_server) λ text. (record o { server_ip = text }, refl, refl)

-- The result is the help, or options with this port.
abbrev pub PortKept : ℕ → Parsed Options → Type 0
PortKept port result =
    (result ≡ exits) ⊎ ((o : Options) × (result ≡ parsed o) × (o.server_port ≡ port))

Action-cases :
    {O : Type 0} (a : Action O)
    → (a ≡ helps)
      ⊎ (a ≡ ignored)
      ⊎ ((o : O) × (a ≡ changes o))
      ⊎ ((k : Option (List ℕ) → Parsed O) × (a ≡ takes_next k))
Action-cases helps = inl refl
Action-cases ignored = inr (inl refl)
Action-cases (changes o) = inr (inr (inl (o, refl)))
Action-cases (takes_next k) = inr (inr (inr (k, refl)))

-- What the argument before asked for leaves the port as it is, too.
abbrev PendingKeeps : ℕ → Options → Option (Option (List ℕ) → Parsed Options) → Type 0
PendingKeeps port o none = o.server_port ≡ port
PendingKeeps port o (some k) =
    (text : Option (List ℕ)) → (o' : Options) × (k text ≡ parsed o') × (o'.server_port ≡ port)

module _ (act : List ℕ → Options → Action Options) (port : ℕ)
    (law : (arg : List ℕ) (o : Options) → o.server_port ≡ port → KeepsPort port (act arg o)) where
  parse_from-PortKept :
      (o : Options) (pending : Option (Option (List ℕ) → Parsed Options)) (args : List (List ℕ))
      → PendingKeeps port o pending
      → PortKept port (parse_from act o pending args)
  unfolding parse_from KeepsPort
  parse_from-PortKept o none [] h = inr (o, refl, h)
  parse_from-PortKept o (some k) [] h = inr (h none)
  parse_from-PortKept o (some k) (arg ∷ args) h =
      let (o', run, e) = h (some arg) in rw (parse_from, run) (parse_from-PortKept o' none args e)
  parse_from-PortKept o none (arg ∷ args) h =
      let keeps = law arg o h in
      elim (Action-cases (act arg o)) [
        | inl e ↦ rw (parse_from, e) (inl refl)
        | inr (inl e) ↦ rw (parse_from, e) (parse_from-PortKept o none args h)
        | inr (inr (inl (o', e))) ↦
            let kept : o'.server_port ≡ port = rw e at keeps in
            rw (parse_from, e) (parse_from-PortKept o' none args kept)
        | inr (inr (inr (k, e))) ↦
            let kept : PendingKeeps port o (some k) = rw e at keeps in
            rw (parse_from, e) (parse_from-PortKept o (some k) args kept)
      ]

-- Whatever the arguments are, `Demo` prints its help or ends with the port it began with.
pub parse_arguments-PortKept :
    (stoi : List ℕ → Option ℕ) (o : Options) (args : List (List ℕ))
    → PortKept o.server_port (parse_arguments (demo_act stoi) o args)
unfolding parse_arguments
parse_arguments-PortKept stoi o args =
    parse_from-PortKept (demo_act stoi) o.server_port
      (λ arg o' e.
        subst (λ n. KeepsPort n (demo_act stoi arg o')) e (demo_act-KeepsPort stoi arg o'))
      o none args refl
