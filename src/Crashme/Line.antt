-- ===== src/Crashme/Line.antt =====
-- slowReadFirstLine of cmd/crashme/main.go: the name of the task is read byte by byte.
use mathlib.Core.List.{append_assoc}
use notmanytask.Base.{
  ℕ, zero, suc, ◌≡◌, ◌≤◌, refl, sym, ap, ◌∙◌, String, true, false, List, [], ◌∷◌, ◌++◌, map, In,
  inl, inr, ◌↔◌, eqb, eqb_iff, length, arith, Bool-cases, if◌then◌else◌,
}
use notmanytask.Base.Errors.{Error, Result, ok, err, new}

-- What a read into a buffer of one byte comes to. `nothing` is a read of no byte without an error.
pub data Reading : Type 0 where
  byte : ℕ → Reading
  nothing : Reading
  eof : Reading
  failed : Error → Reading

-- MaxFirstLineSizeE
abbrev pub max_first_line_size : ℕ
max_first_line_size = 100

abbrev pub newline : ℕ
newline = 10

unfoldable pub end_of_input : List ℕ → Error
end_of_input line =
    if eqb (length line) max_first_line_size
    then new "too long first line"
    else new "got EOF before new line"

cons_clean :
    (c : ℕ) (more : List ℕ) → eqb c newline ≡ false → ¬ In newline more → ¬ In newline (c ∷ more)
cons_clean c more q clean (inl p) =
    let same : eqb c newline ≡ true = (eqb_iff c newline).1 (sym p) in absurd (cc)
cons_clean c more q clean (inr j) = clean j

-- `trim` is strings.TrimSpace on the bytes. The readings are what the connection sends; behind the
-- last of them it is at its end. `left` is what the io.LimitReader still lets through.
module _ (trim : List ℕ → String) where
  unfoldable pub read_line : ℕ → List ℕ → List Reading → Result String × List Reading
  unfolding end_of_input
  read_line left line [] = (err (end_of_input line), [])
  read_line zero line (r ∷ rs) = (err (end_of_input line), r ∷ rs)
  read_line (suc left) line (byte c ∷ rs) =
      let rest = read_line left (line ++ (c ∷ [])) rs in
      if eqb c newline then (ok (trim (line ++ (c ∷ []))), rs) else rest
  read_line (suc left) line (nothing ∷ rs) = (err (end_of_input line), rs)
  read_line (suc left) line (eof ∷ rs) = (err (end_of_input line), rs)
  read_line (suc left) line (failed e ∷ rs) = (err e, rs)

  -- The text of the first line, and what is left to read.
  unfoldable pub slow_read_first_line : List Reading → Result String × List Reading
  unfolding read_line
  slow_read_first_line = read_line max_first_line_size []

  -- The readings are those of a line of at most `left` bytes with its newline, and a rest.
  abbrev pub StartsWith : ℕ → List ℕ → List Reading → List Reading → Type 0
  StartsWith left line readings rest =
      (readings ≡ map byte (line ++ (newline ∷ [])) ++ rest)
      × (¬ In newline line)
      × (suc (length line) ≤ left)

  read_line-found :
      (left : ℕ) (line : List ℕ) (rs rest : List Reading) (text : String)
      → read_line left line rs ≡ (ok text, rest)
      → (more : List ℕ) × StartsWith left more rs rest
        × (text ≡ trim (line ++ (more ++ (newline ∷ []))))
  unfolding read_line
  read_line-found left line [] rest text e = absurd (cc)
  read_line-found zero line (r ∷ rs) rest text e = absurd (cc)
  read_line-found (suc left) line (nothing ∷ rs) rest text e = absurd (cc)
  read_line-found (suc left) line (eof ∷ rs) rest text e = absurd (cc)
  read_line-found (suc left) line (failed x ∷ rs) rest text e = absurd (cc)
  read_line-found (suc left) line (byte c ∷ rs) rest text e = elim (Bool-cases (eqb c newline)) [
    | inl q ↦
        let is_newline : c ≡ newline = (eqb_iff c newline).0 q in
        let h = rw q at e in
        let shown : trim (line ++ (c ∷ [])) ≡ text = cc in
        ([], (cc, λ i. i, omega arith), sym shown ∙ ap (λ k. trim (line ++ (k ∷ []))) is_newline)
    | inr q ↦
        let (more, (split, clean, low), same) =
          read_line-found left (line ++ (c ∷ [])) rs rest text (rw q at e) in
        (
          c ∷ more,
          (ap (λ t. byte c ∷ t) split, cons_clean c more q clean, omega arith),
          same ∙ ap trim (append_assoc line (c ∷ []) (more ++ (newline ∷ []))),
        )
  ]

  read_line-reads :
      (left : ℕ) (line more : List ℕ) (rest : List Reading)
      → ¬ In newline more
      → suc (length more) ≤ left
      → read_line left line (map byte (more ++ (newline ∷ [])) ++ rest)
        ≡ (ok (trim (line ++ (more ++ (newline ∷ [])))), rest)
  unfolding read_line
  read_line-reads zero line more rest clean low = absurd (omega arith)
  read_line-reads (suc left) line [] rest clean low = refl
  read_line-reads (suc left) line (c ∷ more) rest clean low = elim (Bool-cases (eqb c newline)) [
    | inl q ↦ absurd (clean (inl (sym ((eqb_iff c newline).0 q))))
    | inr q ↦ rw q (
        read_line-reads left (line ++ (c ∷ [])) more rest (λ j. clean (inr j)) (omega arith)
        ∙ ap (λ t. (ok (trim t), rest)) (append_assoc line (c ∷ []) (more ++ (newline ∷ []))))
  ]

  -- slowReadFirstLine succeeds on exactly the inputs that start with a line of at most 99 bytes and
  -- its newline: it answers the line with its newline, trimmed, and has read nothing behind it.
  pub slow_read_first_line_iff :
      (readings rest : List Reading) (text : String)
      → (slow_read_first_line readings ≡ (ok text, rest)) ↔ (
          (line : List ℕ) × StartsWith max_first_line_size line readings rest
          × (text ≡ trim (line ++ (newline ∷ []))))
  unfolding slow_read_first_line
  slow_read_first_line_iff readings rest text = (
    λ e. read_line-found max_first_line_size [] readings rest text e,
    λ (line, (split, clean, low), same).
        ap (read_line max_first_line_size []) split
        ∙ read_line-reads max_first_line_size [] line rest clean low
        ∙ ap (λ t. (ok t, rest)) (sym same),
  )
