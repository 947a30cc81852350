-- ===== src/Options.antt =====
-- `parse_arguments` of src/util/wordcount.cpp, src/util/linus.cpp and src/util/demo.cpp: the loop
-- that the three share, and what each makes of an argument. `std::stoi` is an argument.
pub mod Given
pub mod Unset
use cs4500project.Schema
use cs4500project.Prelude.{
  Bool, List, Option, String, [], bytes_of, if◌then◌else◌, none, not, some, ℕ, ◌%◌, ◌^◌, ◌||◌, ◌∷◌,
}
use cs4500project.Schema.{Schema}

-- What the loop comes to: the options, the end of the program in `_help`, an exception of
-- `std::stoi`, or the use of a null pointer as a string.
pub data Parsed (O : Type 0) : Type 0 where
  parsed : O → Parsed O
  exits throws null_used : Parsed O

-- What an argument calls for: the help, a change, the argument behind it, where the one behind the
-- last is a null pointer, or nothing.
pub data Action (O : Type 0) : Type 0 where
  helps ignored : Action O
  changes : O → Action O
  takes_next : (Option (List ℕ) → Parsed O) → Action O

-- The loop: the second argument is what the argument before asked for.
unfoldable pub parse_from :
    {O : Type 0}
    → (List ℕ → O → Action O)
    → O
    → Option (Option (List ℕ) → Parsed O)
    → List (List ℕ)
    → Parsed O
parse_from act o none [] = parsed o
parse_from act o (some take_value) [] = take_value none
parse_from act o none (arg ∷ args) = elim (act arg o) [
  | helps ↦ exits
  | ignored ↦ parse_from act o none args
  | changes o' ↦ parse_from act o' none args
  | takes_next take_value ↦ parse_from act o (some take_value) args
]
parse_from act o (some take_value) (arg ∷ args) = elim (take_value (some arg)) [
  | parsed o' ↦ parse_from act o' none args
  | exits ↦ exits
  | throws ↦ throws
  | null_used ↦ null_used
]

-- The modes of the applications.
pub data Mode : Type 0 where
  no_mode server_mode reader_mode counter_mode commits_mode users_mode projects_mode : Mode
  producer_mode summarizer_mode : Mode

-- `WordCount`, of which the file name is a C string, and `Linus`, of which it is a string, empty at
-- first.
pub record Options : Type 0 where
  pub mode : Mode
  pub ip : Option (List ℕ)
  pub server_ip : Option (List ℕ)
  pub server_port : ℕ
  pub filename : Option (List ℕ)

-- `SERVER_PORT`
abbrev pub default_port : ℕ
default_port = 8080

abbrev pub defaults : Options
defaults = record {
  mode = no_mode;
  ip = none;
  server_ip = none;
  server_port = default_port;
  filename = none;
}

-- `strcmp(arg, ...) == 0` with a name behind two dashes, or behind one.
abbrev pub long_name : String → List ℕ
long_name name = b'-' ∷ b'-' ∷ bytes_of name

abbrev pub short_name : String → List ℕ
short_name name = b'-' ∷ bytes_of name

abbrev pub is_long : List ℕ → String → Bool
is_long arg name = Schema.same_string arg (long_name name)

abbrev pub is_short : List ℕ → String → Bool
is_short arg name = Schema.same_string arg (short_name name)

-- The port is kept in sixteen bits.
unfoldable pub read_port : (List ℕ → Option ℕ) → Options → Option (List ℕ) → Parsed Options
read_port stoi o none = null_used
read_port stoi o (some text) = elim (stoi text) [
  | none ↦ throws
  | some n ↦ parsed (record o { server_port = n % 2 ^ 16 })
]

unfoldable pub word_count_act : (List ℕ → Option ℕ) → List ℕ → Options → Action Options
unfolding read_port
word_count_act stoi arg o =
    if is_long arg "help"
    then helps
    else if is_long arg "server"
    then changes (record o { mode = server_mode })
    else if is_long arg "reader"
    then changes (record o { mode = reader_mode })
    else if is_long arg "counter"
    then changes (record o { mode = counter_mode })
    else if is_long arg "address" || is_short arg "ip"
    then takes_next (λ text. parsed (record o { ip = text }))
    else if is_long arg "server_address" || is_short arg "sip"
    then takes_next (λ text. parsed (record o { server_ip = text }))
    else if is_long arg "port" || is_short arg "p"
    then takes_next (read_port stoi o)
    else if is_long arg "file" || is_short arg "f"
    then takes_next (λ text. parsed (record o { filename = text }))
    else ignored

-- A mode of `Linus` has a file name, which one that was given before goes before.
abbrev pub or_name : Option (List ℕ) → String → Option (List ℕ)
or_name none name = some (bytes_of name)
or_name (some []) name = some (bytes_of name)
or_name (some (c ∷ cs)) name = some (c ∷ cs)

unfoldable pub linus_act : (List ℕ → Option ℕ) → List ℕ → Options → Action Options
unfolding read_port
linus_act stoi arg o =
    if is_long arg "help"
    then helps
    else if is_long arg "server"
    then changes (record o { mode = server_mode })
    else if is_long arg "commits"
    then changes (record o { mode = commits_mode; filename = or_name o.filename "commits.ltgt" })
    else if is_long arg "users"
    then changes (record o { mode = users_mode; filename = or_name o.filename "users.ltgt" })
    else if is_long arg "projects"
    then changes (record o { mode = projects_mode; filename = or_name o.filename "projects.ltgt" })
    else if is_long arg "address" || is_short arg "ip"
    then takes_next (λ text. parsed (record o { ip = text }))
    else if is_long arg "server_address" || is_short arg "sip"
    then takes_next (λ text. parsed (record o { server_ip = text }))
    else if is_long arg "port" || is_short arg "p"
    then takes_next (read_port stoi o)
    else if is_long arg "file" || is_short arg "f"
    then takes_next (λ text. elim text [
      | none ↦ null_used
      | some name ↦ parsed (record o { filename = some name })
    ])
    else ignored

-- `Demo` compares the short names, and `--server` and `--port`, without `== 0`.
unfoldable pub demo_act : (List ℕ → Option ℕ) → List ℕ → Options → Action Options
unfolding read_port
demo_act stoi arg o =
    if is_long arg "help"
    then helps
    else if is_long arg "server"
    then changes (record o { mode = server_mode })
    else if is_long arg "producer"
    then changes (record o { mode = producer_mode })
    else if is_long arg "counter"
    then changes (record o { mode = counter_mode })
    else if is_long arg "summarizer"
    then changes (record o { mode = summarizer_mode })
    else if is_long arg "address" || not (is_short arg "ip")
    then takes_next (λ text. parsed (record o { ip = text }))
    else if not (is_long arg "server") || not (is_short arg "sip")
    then takes_next (λ text. parsed (record o { server_ip = text }))
    else if not (is_long arg "port") || not (is_short arg "p")
    then takes_next (read_port stoi o)
    else ignored

-- The arguments behind the program's name.
unfoldable pub parse_arguments :
    (List ℕ → Options → Action Options) → Options → List (List ℕ) → Parsed Options
unfolding parse_from
parse_arguments act o args = parse_from act o none args
