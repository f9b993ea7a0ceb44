-- ===== src/Tests/Earns.antt =====
-- A flag from the form to the points.
use notmanytask.Base.{some, List, [], ◌∷◌}
use notmanytask.Models.{Flag}
use notmanytask.Scorer.Types.{override_key_eq}
use notmanytask.Tests.Samples.{int_float, free_flag, taken_flag}
use notmanytask.Tests.Database.{flags_db}

abbrev given : List Flag
given = taken_flag ∷ record free_flag { gitlab_login = some "ivan" } ∷ []
