-- ===== src/Deadlines/Date.antt =====
-- The text and JSON forms of a Date of internal/deadlines/deadlines.go. A []byte is the list of its
-- bytes. The packages time and strings are parameters.
pub mod Laws
use notmanytask.Base.{ℕ, String, Option, none, some, List, [], ◌∷◌, ◌++◌}
use notmanytask.Base.Errors.{Result, ok, err, panic, ◌>>=◌}

abbrev pub Bytes : Type 0
Bytes = List ℕ

-- `T` are the values of time.Time, with their location, and `L` the locations. ParseInLocation
-- panics on a nil location, if it does not return an error before.
pub record TimeLib (T L : Type 0) : Type 0 where
  pub load_location : String → Result L
  pub parse_in_location : String → Bytes → Option L → Result T
  pub format : T → String → Bytes
  pub trim_space : Bytes → Bytes

-- defaultLocOnce with defaultLoc, which is nil if Do has panicked.
pub data DefaultLocation (L : Type 0) : Type 0 where
  not_done : DefaultLocation L
  done : Option L → DefaultLocation L

abbrev pub default_time_zone : String
default_time_zone = "Europe/Moscow"

abbrev pub date_format : String
date_format = "02-01-2006 15:04"

-- The byte of a quotation mark.
abbrev pub quote : ℕ
quote = 34

abbrev pub drop_last : Bytes → Bytes
drop_last [] = []
drop_last (b ∷ []) = []
drop_last (b ∷ c ∷ rest) = b ∷ drop_last (c ∷ rest)

-- buf[1 : len(buf)-1]
abbrev pub inner : Bytes → Result Bytes
inner [] = panic
inner (b ∷ []) = panic
inner (b ∷ c ∷ rest) = ok (drop_last (c ∷ rest))

module _ {T L : Type 0} (lib : TimeLib T L) where
  abbrev pub loaded : Result L → Result (Option L) × DefaultLocation L
  loaded (ok loc) = (ok (some loc), done (some loc))
  loaded (err e) = (panic, done none)
  loaded panic = (panic, done none)

  unfoldable pub get_default_location : DefaultLocation L → Result (Option L) × DefaultLocation L
  get_default_location not_done = loaded (lib.load_location default_time_zone)
  get_default_location (done loc) = (ok loc, done loc)

  unfoldable pub date_string : T → Bytes
  date_string t = lib.format t date_format

  unfoldable pub unmarshal_text : Bytes → DefaultLocation L → Result T × DefaultLocation L
  unfolding get_default_location
  unmarshal_text buf st =
      let (loc, st') = get_default_location st in
      ((do l ← loc; lib.parse_in_location date_format (lib.trim_space buf) l), st')

  unfoldable pub marshal_text : T → Result Bytes
  unfolding date_string
  marshal_text t = ok (date_string t)

  abbrev pub on_inner :
      Result Bytes
      → (Bytes → DefaultLocation L → Result T × DefaultLocation L)
      → DefaultLocation L
      → Result T × DefaultLocation L
  on_inner (ok text) f st = f text st
  on_inner (err e) f st = (err e, st)
  on_inner panic f st = (panic, st)

  unfoldable pub unmarshal_json : Bytes → DefaultLocation L → Result T × DefaultLocation L
  unfolding unmarshal_text
  unmarshal_json buf st = on_inner (inner buf) unmarshal_text st

  unfoldable pub marshal_json : T → Result Bytes
  unfolding marshal_text
  marshal_json t = do text ← marshal_text t; ok ((quote ∷ []) ++ text ++ (quote ∷ []))
