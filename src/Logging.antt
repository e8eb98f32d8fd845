-- ===== src/Logging.antt =====
-- The logger of internal/log/log.go: the logger that a context carries, and the adapter between the
-- logging interceptor and zap.
-- zap's loggers are a parameter, with its StdLogger, WithOptions(AddCallerSkip(n)) and With, and so
-- is fmt.Sprintf. What is modelled is which call of zap is made.
pub mod Laws
use configfs.Prelude.{ℕ, ℤ, Bool, List, [], ◌∷◌, ◌++◌, Option, none, some, if◌then◌else◌}
use configfs.Strings.{Text, codes, text_eq}

-- A value of Go's type any: the types that the adapter tells apart, and all others.
pub data Any (V : Type 0) : Type 0 where
  a_string : Text → Any V
  an_int : ℤ → Any V
  a_bool : Bool → Any V
  an_other : V → Any V

-- zap.String, zap.Int, zap.Bool, zap.Any and zap.Error with their arguments
pub data Field (V : Type 0) : Type 0 where
  string_field : Text → Text → Field V
  int_field : Text → ℤ → Field V
  bool_field : Text → Bool → Field V
  any_field : Text → Any V → Field V
  error_field : Text → Field V

-- The method of zap's logger; Fatal ends the process.
pub data Severity : Type 0 where
  debug info warn error fatal : Severity

-- The four levels of the interceptor, and any other number.
pub data Level : Type 0 where
  level_debug level_info level_warn level_error : Level
  other_level : ℤ → Level

pub record Entry (L V : Type 0) : Type 0 where
  pub logger : L
  pub severity : Severity
  pub message : Text
  pub fields : List (Field V)

-- A value under a key of type contextKey.
pub data Carried (L V : Type 0) : Type 0 where
  a_logger : L → Carried L V
  no_logger : V → Carried L V

-- The values under keys of type contextKey, the latest first.
abbrev pub Context : Type 0 → Type 0 → Type 0
Context L V = List (Text × Carried L V)

-- contextKey.String
unfoldable pub key_string : Text → Text
key_string key = codes "logger" ++ key

abbrev pub context_key_logging : Text
context_key_logging = codes "logging"

-- the switch over the level; `none` panics
unfoldable pub severity_of : Level → Option Severity
severity_of level_debug = some debug
severity_of level_info = some info
severity_of level_warn = some warn
severity_of level_error = some error
severity_of (other_level n) = none

module _ {L V : Type 0} where
  -- ctx.Value
  unfoldable pub value_of : Text → Context L V → Option (Carried L V)
  value_of key [] = none
  value_of key ((k, v) ∷ ctx) =
      let rest = value_of key ctx in if text_eq k key then some v else rest

module _ {V : Type 0} where
  -- the type switch of InterceptorLogger
  unfoldable pub field_of : Text → Any V → Field V
  field_of key (a_string s) = string_field key s
  field_of key (an_int n) = int_field key n
  field_of key (a_bool b) = bool_field key b
  field_of key (an_other v) = any_field key (an_other v)

  abbrev pub add_field : Field V → Option (List (Field V)) → Option (List (Field V))
  add_field f none = none
  add_field f (some fs) = some (f ∷ fs)

  -- the loop over the fields: a key without a value panics, and so does a key that is no string
  unfoldable pub fields_of : List (Any V) → Option (List (Field V))
  fields_of [] = some []
  fields_of (a_string key ∷ value ∷ rest) = add_field (field_of key value) (fields_of rest)
  fields_of (a_string key ∷ []) = none
  fields_of (an_int n ∷ rest) = none
  fields_of (a_bool b ∷ rest) = none
  fields_of (an_other v ∷ rest) = none

-- `std` is zap.NewProduction with the option AddCallerSkip.
module _ {L V : Type 0} (std : ℕ → L) (sprintf : Text → List (Any V) → Text) where
  -- StdLogger
  unfoldable pub std_logger : L
  std_logger = std 1

  unfoldable pub logger_or_std : Option (Carried L V) → L
  unfolding std_logger
  logger_or_std none = std_logger
  logger_or_std (some (a_logger l)) = l
  logger_or_std (some (no_logger v)) = std_logger

  -- LoggerForContext
  unfoldable pub logger_for_context : Context L V → L
  unfolding value_of logger_or_std
  logger_for_context ctx = logger_or_std (value_of context_key_logging ctx)

  unfoldable pub logged : Severity → List (Field V) → Context L V → Text → List (Any V) → Entry L V
  unfolding logger_for_context
  logged severity fields ctx format args = record {
    logger = logger_for_context ctx;
    severity = severity;
    message = sprintf format args;
    fields = fields;
  }

  -- ErrorfCtx, with the text of the error
  unfoldable pub errorf_ctx : Context L V → Text → Text → List (Any V) → Entry L V
  unfolding logged
  errorf_ctx ctx e format args = logged error (error_field e ∷ []) ctx format args

  -- WarningfCtx
  unfoldable pub warningf_ctx : Context L V → Text → List (Any V) → Entry L V
  unfolding logged
  warningf_ctx ctx format args = logged warn [] ctx format args

  -- InfofCtx
  unfoldable pub infof_ctx : Context L V → Text → List (Any V) → Entry L V
  unfolding logged
  infof_ctx ctx format args = logged info [] ctx format args

  -- FatalfCtx, which ends the process
  unfoldable pub fatalf_ctx : Context L V → Text → List (Any V) → Entry L V
  unfolding logged
  fatalf_ctx ctx format args = logged fatal [] ctx format args

-- `skipping` is WithOptions with AddCallerSkip, and `with_fields` is With.
module _ {L V : Type 0} (skipping : ℕ → L → L) (with_fields : List (Field V) → L → L) where
  abbrev pub entry_of : L → Text → Option (List (Field V)) → Option Severity → Option (Entry L V)
  entry_of l msg (some fs) (some severity) = some (record {
    logger = with_fields fs (skipping 1 l);
    severity = severity;
    message = msg;
    fields = [];
  })
  entry_of l msg (some fs) none = none
  entry_of l msg none o = none

  -- InterceptorLogger; `none` panics
  unfoldable pub interceptor_logger : L → Level → Text → List (Any V) → Option (Entry L V)
  unfolding fields_of severity_of
  interceptor_logger l level msg fields = entry_of l msg (fields_of fields) (severity_of level)

-- ContextWithLogger
unfoldable pub context_with_logger : {L V : Type 0} → Context L V → L → Context L V
context_with_logger ctx l = (context_key_logging, a_logger l) ∷ ctx
