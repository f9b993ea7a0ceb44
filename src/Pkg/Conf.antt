-- ===== src/Pkg/Conf.antt =====
-- pkg/conf/config.go and ParseConfig of internal/config: which names of the environment are read.
pub mod Settings
use Prim.Native.String.{◌++◌ as append}
use notmanytask.Base.{
  String, Option, none, some, List, [], ◌∷◌, ◌++◌, ◌==◌, string_eq, if◌then◌else◌,
}
use notmanytask.Base.Errors.{Result, ok, err, panic, wrapped, ◌>>=◌}

-- What reflection shows of a value: a struct with its fields, a pointer to a value, or any other. A field
-- has a name and, if there is one, a mapstructure tag.
mutual
  pub data Value : Type 0 where
    plain : Value
    pointer : Value → Value
    struct : Fields → Value

  pub data Fields : Type 0 where
    end : Fields
    field : String → Option String → Value → Fields → Fields

abbrev pub key : String → Option String → String
key name none = name
key name (some tag) = tag

-- strings.Join with a dot.
unfoldable pub dotted : List String → String
dotted [] = ""
dotted (p ∷ []) = p
dotted (p ∷ q ∷ ps) = append p (append "." (dotted (q ∷ ps)))

abbrev pub or_panic : {A : Type 0} → Result A → Result A
or_panic (ok a) = ok a
or_panic (err e) = panic
or_panic panic = panic

-- bindEnvs, with what viper.BindEnv answers: the names that are bound, in order. What append makes
-- of `parts` is read before the next append may write to its array.
module _ (bind : String → Result (Unit {0})) where
  unfoldable mutual
    pub bind_fields : Fields → List String → Result (List String)
    bind_fields end parts = ok []
    bind_fields (field name tag v rest) parts = do
      here ← bind_field v (parts ++ (key name tag ∷ []))
      later ← bind_fields rest parts
      ok (here ++ later)

    pub bind_field : Value → List String → Result (List String)
    bind_field plain parts = (or_panic (bind (dotted parts)) >>= λ _. ok (dotted parts ∷ []))
    bind_field (pointer v) parts = (or_panic (bind (dotted parts)) >>= λ _. ok (dotted parts ∷ []))
    bind_field (struct fs) parts = bind_fields fs parts

  -- A value that is no struct has no fields to count, which is a panic.
  unfoldable pub bind_envs : Value → List String → Result (List String)
  unfolding bind_fields
  bind_envs plain parts = panic
  bind_envs (pointer v) parts = bind_envs v parts
  bind_envs (struct fs) parts = bind_fields fs parts

-- viper: reading of a file, and the decoding of the file and of the variables with the prefix that
-- belong to the names.
pub record Viper (C : Type 0) : Type 0 where
  pub bind_env : String → Result (Unit {0})
  pub read_in_config : String → Result (Unit {0})
  pub unmarshal : Option String → List String → Result C

-- The Options, of which EnvPrefix is the only one: the last one counts.
unfoldable pub apply_options : List String → Option String → Option String
apply_options [] prefix = prefix
apply_options (p ∷ ps) prefix = apply_options ps (some p)

module _ {C : Type 0} (viper : Viper C) (config_path : String) where
  unfoldable pub parse_config : Value → List String → Result C
  unfolding bind_envs apply_options
  parse_config config options = do
    _ ←
        if config_path == ""
        then ok tt
        else wrapped "Failed to load config" (viper.read_in_config config_path)
    names ← bind_envs viper.bind_env config []
    wrapped "Failed to unmarshal config" (viper.unmarshal (apply_options options none) names)

  -- ParseConfig of internal/config.
  unfoldable pub parse_service_config : Value → Result C
  unfolding parse_config
  parse_service_config config = wrapped "Failed to parse config" (parse_config config ("NMT" ∷ []))
