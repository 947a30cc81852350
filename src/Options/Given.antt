-- ===== src/Options/Given.antt =====
-- `parse_arguments` of src/util/wordcount.cpp and src/util/linus.cpp: options that are given are
-- found.
use cs4500project.Schema
use cs4500project.Prelude.{
  All, bytes_of, List, Option, String, [], arith, some, ℕ, ◌%◌, ◌<◌, ◌^◌, ◌∷◌, ◌≡◌,
}
use cs4500project.Options.{
  Action, server_mode, counter_mode, users_mode, projects_mode, Mode, Options, commits_mode,
  linus_act, long_name, parse_arguments, parse_from, parsed, read_port, reader_mode, short_name,
  word_count_act,
}
use cs4500project.Schema.{Schema}

-- The arguments for these options, the port as a text.
unfoldable pub arguments : String → List ℕ → List ℕ → List ℕ → List ℕ → List (List ℕ)
arguments mode ip server_ip port filename =
    short_name "f"
    ∷ filename
    ∷ long_name mode
    ∷ short_name "ip"
    ∷ ip
    ∷ short_name "sip"
    ∷ server_ip
    ∷ short_name "p"
    ∷ port
    ∷ []

abbrev pub given : Mode → List ℕ → List ℕ → ℕ → List ℕ → Options
given mode ip server_ip port filename = record {
  mode = mode;
  ip = some ip;
  server_ip = some server_ip;
  server_port = port;
  filename = some filename;
}

-- The modes of an application, and the file name that each leads to when one is given.
abbrev pub Modes : Type 0
Modes = List (String × Mode × (List ℕ → List ℕ))

abbrev pub word_count_modes : Modes
word_count_modes =
    ("server", server_mode, λ name. name)
    ∷ ("reader", reader_mode, λ name. name)
    ∷ ("counter", counter_mode, λ name. name)
    ∷ []

abbrev pub instead_of_empty : String → List ℕ → List ℕ
instead_of_empty default [] = bytes_of default
instead_of_empty default (c ∷ name) = c ∷ name

abbrev pub linus_modes : Modes
linus_modes =
    ("server", server_mode, λ name. name)
    ∷ ("commits", commits_mode, instead_of_empty "commits.ltgt")
    ∷ ("users", users_mode, instead_of_empty "users.ltgt")
    ∷ ("projects", projects_mode, instead_of_empty "projects.ltgt")
    ∷ []

-- In each of the modes, the options that are given are found.
abbrev pub AllFound :
    (List ℕ → Options → Action Options)
    → Options
    → Modes
    → List ℕ
    → List ℕ
    → List ℕ
    → ℕ
    → List ℕ
    → Type 0
AllFound act o modes ip server_ip text port name =
    All
      (λ m.
        parse_arguments act o (arguments m.0 ip server_ip text name)
        ≡ parsed (given m.1 ip server_ip port (m.2 name)))
      modes

-- `WordCount` and `Linus`, from any options and in each of their modes, find the options that are
-- given by their short names, in the order of the file name, the mode, the two addresses and the
-- port, whatever the texts are, if the port's text is a number below 2 ^ 16. An empty file name is
-- replaced by the mode's own in the modes of `Linus` but the server's.
pub parse_arguments-arguments :
    (stoi : List ℕ → Option ℕ) (o : Options) (ip server_ip text name : List ℕ) (port : ℕ)
    → stoi text ≡ some port
    → port < 2 ^ 16
    → AllFound (word_count_act stoi) o word_count_modes ip server_ip text port name
      × AllFound (linus_act stoi) o linus_modes ip server_ip text port name
unfolding parse_arguments parse_from word_count_act linus_act arguments read_port Schema.same_string
parse_arguments-arguments stoi o ip server_ip text [] port e small =
    let kept : port % 65536 ≡ port = omega arith in
    (
      (rw (parse_from, e, kept), (rw (parse_from, e, kept), (rw (parse_from, e, kept), tt))),
      (
        rw (parse_from, e, kept),
        (rw (parse_from, e, kept), (rw (parse_from, e, kept), (rw (parse_from, e, kept), tt))),
      ),
    )
parse_arguments-arguments stoi o ip server_ip text (c ∷ name) port e small =
    let kept : port % 65536 ≡ port = omega arith in
    (
      (rw (parse_from, e, kept), (rw (parse_from, e, kept), (rw (parse_from, e, kept), tt))),
      (
        rw (parse_from, e, kept),
        (rw (parse_from, e, kept), (rw (parse_from, e, kept), (rw (parse_from, e, kept), tt))),
      ),
    )
