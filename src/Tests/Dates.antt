-- ===== src/Tests/Dates.antt =====
-- A Date on its way through JSON, with two times of day and a location without a name.
use notmanytask.Base.{
  ◌≡◌, refl, Bool, true, false, ◌||◌, Option, none, some, [], ◌∷◌, eqb, if◌then◌else◌,
}
use notmanytask.Base.Errors.{Result, ok, err, panic, external}
use notmanytask.Deadlines.Date.{
  Bytes, TimeLib, not_done, done, unmarshal_text, marshal_text, marshal_json, unmarshal_json,
}
use notmanytask.Deadlines.Date.Laws.{TimeLaws, unmarshal_json-marshal_json}

-- Without the blanks before it.
abbrev unblank : Bytes → Bytes
unblank [] = []
unblank (b ∷ rest) = if eqb b 32 then unblank rest else b ∷ rest

abbrev digit : Bytes → Result Bool
digit (b ∷ []) = if eqb b 48 || eqb b 49 then ok (eqb b 49) else err (external "parse")
digit _ = err (external "parse")

abbrev digit_in : Bytes → Option (Unit {0}) → Result Bool
digit_in text none = panic
digit_in text (some loc) = digit text

abbrev digit_of : Bool → Bytes
digit_of false = 48 ∷ []
digit_of true = 49 ∷ []

abbrev digits : TimeLib Bool (Unit {0})
digits = record {
  load_location = λ name. ok tt;
  parse_in_location = λ layout text loc. digit_in text loc;
  format = λ t layout. digit_of t;
  trim_space = unblank;
}

digit-again :
    (text : Bytes) (loc : Option (Unit {0})) (t : Bool)
    → digit_in text loc ≡ ok t
    → digit_in (digit_of t) loc ≡ ok t
digit-again text none t e = absurd (cc)
digit-again text (some loc) false e = refl
digit-again text (some loc) true e = refl

digit-trimmed : (t : Bool) → unblank (digit_of t) ≡ digit_of t
digit-trimmed false = refl
digit-trimmed true = refl

digit_laws : TimeLaws digits
digit_laws = record { parse_again = digit-again; trimmed = digit-trimmed }

one_read : unmarshal_text digits (32 ∷ 49 ∷ []) not_done ≡ (ok true, done (some tt))
unfolding unmarshal_text
one_read = refl

date_example :
    (json text : Bytes) × (marshal_json digits true ≡ ok json)
    × (unmarshal_json digits json (done (some tt)) ≡ (ok true, done (some tt)))
    × (marshal_text digits true ≡ ok text)
    × (unmarshal_text digits text (done (some tt)) ≡ (ok true, done (some tt)))
date_example =
    unmarshal_json-marshal_json digits digit_laws (32 ∷ 49 ∷ []) not_done (done (some tt)) true
      one_read

-- A JSON value of less than two bytes is a panic.
short_json : unmarshal_json digits (48 ∷ []) not_done ≡ (panic, not_done)
unfolding unmarshal_json
short_json = refl
