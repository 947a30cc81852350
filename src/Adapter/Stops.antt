-- ===== src/Adapter/Stops.antt =====
-- src/adapter/sorer_dataframe_adapter.cpp, `parse_and_fill_row`: where a row ends.
use cs4500project.Prelude.{set as set_elem}
use cs4500project.Column.View as ColumnView
use cs4500project.Row
use cs4500project.Row.Access as RowAccess
use cs4500project.Prelude.{
  Bool-cases, Option-cases, ap, arith, false, get_elem?, inl, inr, length, length-set, ltb,
  ltb_false→le, ltb→lt, none, ok, some, suc, sym, zero, ℕ, ◌+◌, ◌<◌, ◌∙◌, ◌≡◌, ◌≤◌,
}
use cs4500project.Adapter.{Numbers, SorParser, format_code, format_from, parse_columns, parse_value}
use cs4500project.Adapter.Rows.{length-format_from, type_of-parse_value}
use cs4500project.Column.{Value}
use cs4500project.Row.{Row}

-- A row for the parser's columns.
pub record Fits (parser : SorParser) (r : Row) : Type 0 where
  pub wide : r.width ≡ parser.ncols
  pub types : r.types ≡ format_from parser parser.ncols 0
  pub filled : length r.values ≡ parser.ncols

get_elem?-format_from :
    (parser : SorParser) (left c k : ℕ)
    → k < left
    → get_elem? (format_from parser left c) k ≡ some (format_code (parser.get_col_type (c + k)))
unfolding format_from
get_elem?-format_from parser zero c k lt = absurd (omega arith)
get_elem?-format_from parser (suc left) c zero lt =
    let same : c ≡ c + 0 = omega arith in ap (λ j. some (format_code (parser.get_col_type j))) same
get_elem?-format_from parser (suc left) c (suc k) lt =
    let same : c + 1 + k ≡ c + suc k = omega arith in
    get_elem?-format_from parser left (c + 1) k (omega arith)
    ∙ ap (λ j. some (format_code (parser.get_col_type j))) same

set-Fits :
    (parser : SorParser) (r : Row) (c : ℕ) (v : Value)
    → Fits parser r
    → c < parser.ncols
    → ColumnView.type_of v ≡ format_code (parser.get_col_type c)
    → (r' : Row) × (Row.set r c v ≡ ok r') × Fits parser r'
set-Fits parser r c v fits lt t =
    let types : length r.types ≡ parser.ncols =
      ap length fits.types ∙ length-format_from parser parser.ncols 0 in
    let valid : RowAccess.IsValid r = record {
      typed = types ∙ sym fits.wide;
      filled = fits.filled ∙ sym fits.wide;
    } in
    let at : get_elem? r.types c ≡ some (ColumnView.type_of v) =
      rw (fits.types, t)
        (get_elem?-format_from parser parser.ncols 0 c lt
          ∙ let same : 0 + c ≡ c = omega arith in
            ap (λ j. some (format_code (parser.get_col_type j))) same) in
    (
      record r { values = set_elem r.values c v },
      RowAccess.set-stores r c v valid (omega (arith, fits.wide)) at,
      record {
        wide = fits.wide;
        types = fits.types;
        filled = length-set r.values c v ∙ fits.filled;
      },
    )

module _ (numbers : Numbers) (parser : SorParser) where
  later :
      (row k c : ℕ) (v : Value)
      → c ≤ k
      → parse_value numbers parser c row ≡ some v
      → parse_value numbers parser k row ≡ none
      → c + 1 ≤ k
  later row k c v le found stop = elim (Bool-cases (ltb c k)) [
    | inl lt ↦ let less = ltb→lt c k lt in omega arith
    | inr ge ↦
        let least = ltb_false→le c k ge in
        let same : c ≡ k = omega arith in
        let found' : parse_value numbers parser k row ≡ some v = rw same at found in
        absurd (let no : none ≡ some v = sym stop ∙ found' in ground arith)
  ]

  -- A value that cannot be read ends the row.
  pub parse_columns-stops :
      (row left c k : ℕ) (r : Row)
      → Fits parser r
      → c + left ≡ parser.ncols
      → c ≤ k
      → k < c + left
      → parse_value numbers parser k row ≡ none
      → (r' : Row) × (parse_columns numbers parser row left c r ≡ ok (false, r'))
  unfolding parse_columns
  parse_columns-stops row zero c k r fits e le lt stop = absurd (omega arith)
  parse_columns-stops row (suc left) c k r fits e le lt stop =
      elim (Option-cases (parse_value numbers parser c row)) [
        | inl none_here ↦ (r, rw (parse_columns, none_here))
        | inr (v, found) ↦
            let (r', stored, fits') =
              set-Fits parser r c v fits (omega arith)
                (type_of-parse_value numbers parser c row v found) in
            let further : c + 1 ≤ k = later row k c v le found stop in
            let (r'', run) =
              parse_columns-stops row left (c + 1) k r' fits' (omega arith) further (omega arith)
                stop in
            (r'', rw (parse_columns, found, stored) run)
      ]
