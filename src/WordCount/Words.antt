-- ===== src/WordCount/Words.antt =====
-- src/util/wordcount.cpp, `_read_in_file`: how lines become words.
use cs4500project.Prelude.{
  All, Bool, List, [], ap, append-nil, append_assoc, concat, false, refl, sym, true, ℕ, ◌++◌, ◌∙◌,
  ◌∷◌, ◌≡◌,
}
use cs4500project.WordCount.{read_char, read_line, read_lines}

read_line_append :
    (isspace : ℕ → Bool) (st : List (List ℕ) × List ℕ) (xs ys : List ℕ)
    → read_line isspace st (xs ++ ys) ≡ read_line isspace (read_line isspace st xs) ys
unfolding read_line
read_line_append isspace st [] ys = refl
read_line_append isspace st (x ∷ xs) ys = read_line_append isspace (read_char isspace st x) xs ys

-- A line's end does not end a word: what is read is what one line would give that is all the lines,
-- one after the other.
pub read_lines-concat :
    (isspace : ℕ → Bool) (st : List (List ℕ) × List ℕ) (lines : List (List ℕ))
    → read_lines isspace st lines ≡ read_line isspace st (concat lines)
unfolding read_lines
read_lines-concat isspace st [] = refl
read_lines-concat isspace st (line ∷ lines) =
    read_lines-concat isspace (read_line isspace st line) lines
    ∙ sym (read_line_append isspace st line (concat lines))

-- No character of the line separates words.
abbrev pub IsUnbroken : (ℕ → Bool) → List ℕ → Type 0
IsUnbroken isspace line = All (λ c. isspace c ≡ false) line

read_line_unbroken :
    (isspace : ℕ → Bool) (complete : List (List ℕ)) (word line : List ℕ)
    → IsUnbroken isspace line
    → read_line isspace (complete, word) line ≡ (complete, word ++ line)
unfolding read_line read_char
read_line_unbroken isspace complete word [] h = ap (λ w. (complete, w)) (sym (append-nil word))
read_line_unbroken isspace complete word (c ∷ line) h = rw (h.0) (
    read_line_unbroken isspace complete (word ++ c ∷ []) line h.1
    ∙ ap (λ w. (complete, w)) (append_assoc word (c ∷ []) line))

read_line_word :
    (isspace : ℕ → Bool) (complete : List (List ℕ)) (word : List ℕ) (x space : ℕ)
    → IsUnbroken isspace (x ∷ word)
    → isspace space ≡ true
    → read_line isspace (complete, []) ((x ∷ word) ++ space ∷ [])
      ≡ (complete ++ (x ∷ word) ∷ [], [])
unfolding read_line read_char
read_line_word isspace complete word x space h s =
    let whole = read_line_unbroken isspace complete [] (x ∷ word) h in
    read_line_append isspace (complete, []) (x ∷ word) (space ∷ [])
    ∙ ap (λ st. read_line isspace st (space ∷ [])) whole
    ∙ rw s

-- The words with a separator after each.
unfoldable pub spaced : ℕ → List (List ℕ) → List ℕ
spaced space [] = []
spaced space (word ∷ ws) = word ++ space ∷ spaced space ws

-- A word that the reader can find: not empty, and without separators.
abbrev pub IsWord : (ℕ → Bool) → List ℕ → Type 0
IsWord isspace [] = ⊥
IsWord isspace (x ∷ word) = IsUnbroken isspace (x ∷ word)

read_line-spaced :
    (isspace : ℕ → Bool) (space : ℕ) (complete ws : List (List ℕ))
    → isspace space ≡ true
    → All (IsWord isspace) ws
    → read_line isspace (complete, []) (spaced space ws) ≡ (complete ++ ws, [])
unfolding spaced read_line
read_line-spaced isspace space complete [] s h = ap (λ done. (done, [])) (sym (append-nil complete))
read_line-spaced isspace space complete ([] ∷ ws) s h = absurd h.0
read_line-spaced isspace space complete ((x ∷ word) ∷ ws) s h =
    ap (read_line isspace (complete, []))
      (sym (append_assoc (x ∷ word) (space ∷ []) (spaced space ws)))
    ∙ read_line_append isspace (complete, []) ((x ∷ word) ++ space ∷ []) (spaced space ws)
    ∙ ap (λ st. read_line isspace st (spaced space ws))
        (read_line_word isspace complete word x space h.0 s)
    ∙ read_line-spaced isspace space (complete ++ (x ∷ word) ∷ []) ws s h.1
    ∙ ap (λ done. (done, [])) (append_assoc complete ((x ∷ word) ∷ []) ws)

-- Where the lines, one after the other and without their ends, are words that are not empty, each
-- with a separator behind it, and then a rest without separators, these words are read, wherever
-- the lines end; the rest is not among them.
pub read_lines-spaced :
    (isspace : ℕ → Bool) (space : ℕ) (ws lines : List (List ℕ)) (rest : List ℕ)
    → isspace space ≡ true
    → All (IsWord isspace) ws
    → IsUnbroken isspace rest
    → concat lines ≡ spaced space ws ++ rest
    → read_lines isspace ([], []) lines ≡ (ws, rest)
read_lines-spaced isspace space ws lines rest s h unbroken e =
    read_lines-concat isspace ([], []) lines
    ∙ ap (read_line isspace ([], [])) e
    ∙ read_line_append isspace ([], []) (spaced space ws) rest
    ∙ ap (λ st. read_line isspace st rest) (read_line-spaced isspace space [] ws s h)
    ∙ read_line_unbroken isspace ws [] rest unbroken
