-- ===== src/Pkg/Targz/Chunks.antt =====
-- What of an archive's files arrives at the visitor.
use notmanytask.Base.{
  ℕ, String, ◌≡◌, refl, ap, ◌∙◌, inl, inr, Bool-cases, List, [], ◌∷◌, ◌++◌, map, length, ltb, arith,
}
use mathlib.Core.List.{append_assoc, append-nil}
use notmanytask.Base.Errors.{ok}
use notmanytask.Pkg.Targz.{
  Reading, bytes, bytes_eof, Entry, file, Visitor, copy_file, extract_entries, extract, with_file,
}

-- A file of an archive: the reads before its last, and the last, which comes with io.EOF.
pub record TarFile : Type 0 where
  pub name : String
  pub chunks : List (List ℕ)
  pub last : List ℕ

abbrev pub joined : List (List ℕ) → List ℕ
joined [] = []
joined (c ∷ cs) = c ++ joined cs

abbrev pub reads_of : List (List ℕ) → List ℕ → List Reading
reads_of [] last = bytes_eof last ∷ []
reads_of (c ∷ cs) last = bytes c ∷ reads_of cs last

abbrev pub entry_of : TarFile → Entry
entry_of f = file f.name (reads_of f.chunks f.last)

-- A visitor without errors.
pub record TakesAll (v : Visitor) : Type 0 where
  pub visits : (name : String) → v.visit_file name ≡ ok tt
  pub writes :
      (name : String) (before chunk : List ℕ) → v.write name before chunk ≡ ok (length chunk)
  pub closes : (name : String) → v.close name ≡ ok tt

module _ (v : Visitor) (takes : TakesAll v) where
  copy_file-joined :
      (name : String) (chunks : List (List ℕ)) (last done : List ℕ)
      → copy_file v name (reads_of chunks last) done ≡ (ok tt, done ++ joined chunks)
  unfolding copy_file
  copy_file-joined name [] last done = rw (append-nil done) refl
  copy_file-joined name (c ∷ cs) last done =
      rw (takes.writes name done c) (elim (Bool-cases (ltb (length c) (length c))) [
        | inl less ↦ absurd (ground arith)
        | inr fits ↦ rw fits (
            copy_file-joined name cs last (done ++ c)
            ∙ ap (λ t. (ok tt, t)) (append_assoc done c (joined cs)))
      ])

  extract_entries-cons :
      (f : TarFile) (rest : List Entry)
      → extract_entries v (entry_of f ∷ rest)
        ≡ with_file f.name (ok tt, joined f.chunks) (extract_entries v rest)
  unfolding extract_entries
  extract_entries-cons f rest =
      rw (takes.visits f.name, copy_file-joined f.name f.chunks f.last [], takes.closes f.name) refl

  -- A visitor without errors gets every file of an archive, under its name and in order, with all
  -- that was read before the last read of the file. What the last read brings along with io.EOF is
  -- dropped, whatever it is.
  pub extract-drops_last :
      (files : List TarFile)
      → extract v (ok (map entry_of files)) ≡ (ok tt, map (λ f. (f.name, joined f.chunks)) files)
  unfolding extract
  extract-drops_last [] = unfold extract_entries in refl
  extract-drops_last (f ∷ fs) =
      extract_entries-cons f (map entry_of fs)
      ∙ ap (with_file f.name (ok tt, joined f.chunks)) (extract-drops_last fs)
