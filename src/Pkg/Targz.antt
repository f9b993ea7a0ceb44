-- ===== src/Pkg/Targz.antt =====
-- pkg/targz/targz.go: the entries of an archive are handed to a visitor.
pub mod Chunks
use Prim.Native.String.{◌++◌ as append}
use notmanytask.Base.{ℕ, String, List, [], ◌∷◌, ◌++◌, length, ltb, pos, if◌then◌else◌}
use notmanytask.Base.Errors.{Error, Result, ok, err, panic, new}
use notmanytask.Gitlab.Text.{int_text}

-- What a call of tarReader.Read comes to: bytes, bytes with io.EOF, or an error.
pub data Reading : Type 0 where
  bytes : List ℕ → Reading
  bytes_eof : List ℕ → Reading
  read_error : Error → Reading

-- What tarReader.Next comes to: a directory, a file with the reads that follow, or an error. The end of
-- the list is io.EOF.
pub data Entry : Type 0 where
  directory : String → Entry
  file : String → List Reading → Entry
  broken : Error → Entry

-- The Visitor and its writers: `write` is Write for a file, after what it has taken before.
pub record Visitor : Type 0 where
  pub visit_directory : String → Result (Unit {0})
  pub visit_file : String → Result (Unit {0})
  pub write : String → List ℕ → List ℕ → Result ℕ
  pub close : String → Result (Unit {0})

-- What was written to a file, and how the loop over it ended.
abbrev pub Written : Type 0
Written = Result (Unit {0}) × List ℕ

-- The files that were begun, with their contents.
abbrev pub Extracted : Type 0
Extracted = Result (Unit {0}) × List (String × List ℕ)

abbrev short_write : ℕ → Error
short_write count = new (append "failed to write " (append (int_text (pos count)) " bytes"))

-- What Write answers for the bytes.
abbrev pub after_write : List ℕ → List ℕ → Written → Result ℕ → Written
after_write chunk done rest (ok n) =
    if ltb n (length chunk) then (err (short_write (length chunk)), done) else rest
after_write chunk done rest (err e) = (err e, done)
after_write chunk done rest panic = (panic, done)

abbrev pub if_ok : Result (Unit {0}) → Extracted → Extracted
if_ok (ok _) rest = rest
if_ok (err e) rest = (err e, [])
if_ok panic rest = (panic, [])

-- The files of the rest stand behind this one.
abbrev pub with_file : String → Written → Extracted → Extracted
with_file name (ok _, done) (result, files) = (result, (name, done) ∷ files)
with_file name (err e, done) rest = (err e, (name, done) ∷ [])
with_file name (panic, done) rest = (panic, (name, done) ∷ [])

-- The file is closed when it has been copied.
abbrev pub closing : Result (Unit {0}) → Written → Written
closing closed (ok _, done) = (closed, done)
closing closed (err e, done) = (err e, done)
closing closed (panic, done) = (panic, done)

module _ (v : Visitor) where
  -- The inner loop: `done` are the bytes of the calls of Write that took all of them. A list that ends
  -- stands for io.EOF without bytes.
  unfoldable pub copy_file : String → List Reading → List ℕ → Written
  copy_file name [] done = (ok tt, done)
  copy_file name (bytes chunk ∷ reads) done =
      after_write chunk done (copy_file name reads (done ++ chunk)) (v.write name done chunk)
  copy_file name (bytes_eof chunk ∷ reads) done = (ok tt, done)
  copy_file name (read_error e ∷ reads) done = (err e, done)

  unfoldable pub extract_entries : List Entry → Extracted
  unfolding copy_file
  extract_entries [] = (ok tt, [])
  extract_entries (directory name ∷ entries) =
      if_ok (v.visit_directory name) (extract_entries entries)
  extract_entries (file name reads ∷ entries) =
      if_ok (v.visit_file name) (
        with_file name (closing (v.close name) (copy_file name reads [])) (extract_entries entries))
  extract_entries (broken e ∷ entries) = (err e, [])

  -- Extract, with what gzip.NewReader comes to. The deferred second Close of each file is left out.
  unfoldable pub extract : Result (List Entry) → Extracted
  unfolding extract_entries
  extract (ok entries) = extract_entries entries
  extract (err e) = (err e, [])
  extract panic = (panic, [])

-- ExtractToDir makes the directory and does nothing more: an error of os.MkdirAll is answered with nil.
unfoldable pub extract_to_dir : Result (Unit {0}) → Result (Unit {0})
extract_to_dir (ok _) = ok tt
extract_to_dir (err e) = ok tt
extract_to_dir panic = panic
