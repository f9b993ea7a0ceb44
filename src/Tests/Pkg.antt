-- ===== src/Tests/Pkg.antt =====
-- Archives, settings and log sizes, at concrete values.
use notmanytask.Base.{◌≡◌, ◌↔◌, refl, String, none, some, List, [], ◌∷◌, map, length, In}
use notmanytask.Base.Errors.{ok}
use notmanytask.Pkg.Targz.{Visitor, extract}
use notmanytask.Pkg.Targz.Chunks.{TarFile, TakesAll, entry_of}
use notmanytask.Pkg.Conf.{Fields, plain, pointer, struct, end, field, dotted, bind_envs}
use notmanytask.Pkg.Conf.Settings.{IsSetting, bind_envs-settings}

abbrev visitor : Visitor
visitor = record {
  visit_directory = λ name. ok tt;
  visit_file = λ name. ok tt;
  write = λ name before chunk. ok (length chunk);
  close = λ name. ok tt;
}

visitor_takes : TakesAll visitor
visitor_takes = record {
  visits = λ name. refl;
  writes = λ name before chunk. refl;
  closes = λ name. refl;
}

-- A short file, whose bytes come with io.EOF, and a longer one.
abbrev files : List TarFile
files =
    record { name = "short"; chunks = []; last = 1 ∷ 2 ∷ [] }
    ∷ record { name = "long"; chunks = (3 ∷ 4 ∷ []) ∷ []; last = 5 ∷ [] }
    ∷ []

short_file_is_empty :
    extract visitor (ok (map entry_of files)) ≡ (ok tt, ("short", []) ∷ ("long", 3 ∷ 4 ∷ []) ∷ [])
unfolding extract
short_file_is_empty = refl

-- A struct with a plain field, a struct, and a pointer to a struct.
abbrev settings : Fields
settings = field "Level" none plain (
    field "GitLab" none (struct (field "Token" (some "token") plain end))
      (field "Telegram" none (pointer (struct (field "BotToken" none plain end))) end))

settings_names :
    bind_envs (λ name. ok tt) (pointer (struct settings)) []
    ≡ ok ("Level" ∷ "GitLab.token" ∷ "Telegram" ∷ [])
unfolding bind_envs dotted
settings_names = refl

bind_envs_example :
    (names : List String) × (bind_envs (λ name. ok tt) (pointer (struct settings)) [] ≡ ok names)
    × ((name : String)
        → In name names ↔ ((path : List String) × (name ≡ dotted path) × IsSetting settings path))
bind_envs_example = bind_envs-settings (λ name. ok tt) (λ name. refl) settings
