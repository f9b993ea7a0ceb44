-- ===== src/Deadlines/Date/Laws.antt =====
-- Dates of internal/deadlines/deadlines.go on the way through their text and JSON forms.
use notmanytask.Base.{ℕ, ◌≡◌, refl, ap, Option, some, [], ◌∷◌, ◌++◌}
use notmanytask.Base.Errors.{Result, ok, err, panic, bind-ok}
use notmanytask.Deadlines.Date.{
  Bytes, TimeLib, DefaultLocation, not_done, done, date_format, quote, drop_last, inner,
  default_time_zone, loaded, get_default_location, date_string, unmarshal_text, marshal_text,
  unmarshal_json, marshal_json,
}

drop_last-append : (b : ℕ) (text : Bytes) → drop_last (text ++ (b ∷ [])) ≡ text
drop_last-append b [] = refl
drop_last-append b (c ∷ []) = refl
drop_last-append b (c ∷ d ∷ rest) = ap (c ∷◌) (drop_last-append b (d ∷ rest))

inner-quoted : (b : ℕ) (text : Bytes) → inner (b ∷ (text ++ (b ∷ []))) ≡ ok text
inner-quoted b [] = refl
inner-quoted b (c ∷ rest) = ap ok (drop_last-append b (c ∷ rest))

-- What package time documents: a layout writes what it reads, so that the text of a time that was
-- read with it is read as the same time; and a text of a time with this layout is trimmed already.
pub record TimeLaws {T L : Type 0} (lib : TimeLib T L) : Type 0 where
  pub parse_again :
      (buf : Bytes) (loc : Option L) (t : T)
      → lib.parse_in_location date_format buf loc ≡ ok t
      → lib.parse_in_location date_format (lib.format t date_format) loc ≡ ok t
  pub trimmed : (t : T) → lib.trim_space (lib.format t date_format) ≡ lib.format t date_format

module _ {T L : Type 0} (lib : TimeLib T L) where
  loaded-once :
      (r : Result L) (loc : Option L)
      → (loaded lib r).0 ≡ ok loc
      → get_default_location lib (loaded lib r).1 ≡ (ok loc, (loaded lib r).1)
  unfolding get_default_location
  loaded-once (ok l) loc e = ap (λ x. (x, done (some l))) e
  loaded-once (err x) loc e = absurd (cc)
  loaded-once panic loc e = absurd (cc)

  -- The first call of getDefaultLocation decides what all later ones return.
  pub get_default_location-once :
      (st : DefaultLocation L) (loc : Option L)
      → (get_default_location lib st).0 ≡ ok loc
      → get_default_location lib (get_default_location lib st).1
        ≡ (ok loc, (get_default_location lib st).1)
  unfolding get_default_location
  get_default_location-once not_done loc e = loaded-once (lib.load_location default_time_zone) loc e
  get_default_location-once (done loc') loc e = ap (λ r. (r, done loc')) e

  -- The text that a Date is written as is read as the Date again.
  read-written :
      TimeLaws lib
      → (buf : Bytes) (st st' : DefaultLocation L) (t : T) → unmarshal_text lib buf st ≡ (ok t, st')
      → unmarshal_text lib (date_string lib t) st' ≡ (ok t, st')
  unfolding unmarshal_text date_string
  read-written laws buf st st' t e =
      let got = get_default_location lib st in
      let (loc, e1, e2) = bind-ok got.0 _ t (ap (λ r. r.0) e) in
      let same : got.1 ≡ st' = ap (λ r. r.1) e in
      let again : get_default_location lib st' ≡ (ok loc, st') =
        rw same at (get_default_location-once st loc e1) in
      rw (again, laws.trimmed t) (ap (λ r. (r, st')) (laws.parse_again _ loc t e2))

  -- A Date that UnmarshalText has read is not changed by MarshalJSON and UnmarshalJSON after it, nor
  -- by MarshalText and UnmarshalText, and the location that all of them read it in stays the same.
  pub unmarshal_json-marshal_json :
      TimeLaws lib
      → (buf : Bytes) (st st' : DefaultLocation L) (t : T) → unmarshal_text lib buf st ≡ (ok t, st')
      → (json text : Bytes) × (marshal_json lib t ≡ ok json)
        × (unmarshal_json lib json st' ≡ (ok t, st'))
        × (marshal_text lib t ≡ ok text)
        × (unmarshal_text lib text st' ≡ (ok t, st'))
  unfolding marshal_text marshal_json unmarshal_json
  unmarshal_json-marshal_json laws buf st st' t e =
      let text = date_string lib t in
      let again = read-written laws buf st st' t e in
      (quote ∷ (text ++ (quote ∷ [])), text, refl, rw (inner-quoted quote text) again, refl, again)
