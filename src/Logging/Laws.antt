-- ===== src/Logging/Laws.antt =====
-- Which calls of the logging interceptor of internal/log/log.go reach zap.
use configfs.Prelude.{
  ℕ, ◌≡◌, ◌↔◌, refl, sym, ap, ◌∙◌, List, [], ◌∷◌, Option, none, some, map, arith, subst,
}
use configfs.Strings.{Text}
use configfs.Strings.Laws.{text_eq_refl}
use configfs.Logging.{
  other_level, level_debug, level_info, level_warn, level_error, debug, info, warn, error,
  string_field, int_field, bool_field, any_field, Any, a_string, an_int, a_bool, an_other, Field,
  Severity, Level, Entry, Context, context_key_logging, value_of, field_of, add_field, fields_of,
  severity_of, entry_of, interceptor_logger, logger_or_std, logger_for_context, context_with_logger,
}

-- Keys and values in turn.
abbrev pub flattened : {V : Type 0} → List (Text × Any V) → List (Any V)
flattened [] = []
flattened ((key, value) ∷ pairs) = a_string key ∷ value ∷ flattened pairs

module _ {V : Type 0} where
  abbrev pub fields_at : List (Text × Any V) → List (Field V)
  fields_at pairs = map (λ (p : Text × Any V). field_of p.0 p.1) pairs

  fields_of-flattened :
      (pairs : List (Text × Any V)) → fields_of (flattened pairs) ≡ some (fields_at pairs)
  unfolding fields_of
  fields_of-flattened [] = refl
  fields_of-flattened ((key, value) ∷ pairs) = rw (fields_of-flattened pairs) refl

  -- The loop succeeds only on keys with values, in turn.
  abbrev ArePairs : List (Any V) → List (Field V) → Type 0
  ArePairs vs fs = (pairs : List (Text × Any V)) × (vs ≡ flattened pairs) × (fs ≡ fields_at pairs)

  one_more :
      (key : Text) (value : Any V) (rest : List (Any V)) (o : Option (List (Field V)))
      (fs : List (Field V))
      → ((gs : List (Field V)) → o ≡ some gs → ArePairs rest gs)
      → add_field (field_of key value) o ≡ some fs
      → ArePairs (a_string key ∷ value ∷ rest) fs
  one_more key value rest none fs ih e = cc
  one_more key value rest (some gs) fs ih e =
      let (pairs, p, q) = ih gs refl in
      let here : field_of key value ∷ gs ≡ fs = ground (arith, e) in
      (
        (key, value) ∷ pairs,
        ap (λ (l : List (Any V)). a_string key ∷ value ∷ l) p,
        sym here ∙ ap (λ (l : List (Field V)). field_of key value ∷ l) q,
      )

  fields_of-ArePairs :
      (vs : List (Any V)) (fs : List (Field V)) → fields_of vs ≡ some fs → ArePairs vs fs
  unfolding fields_of
  fields_of-ArePairs [] fs e = ([], refl, ground (arith, e))
  fields_of-ArePairs (a_string key ∷ value ∷ rest) fs e =
      one_more key value rest (fields_of rest) fs (fields_of-ArePairs rest) e
  fields_of-ArePairs (a_string key ∷ []) fs e = cc
  fields_of-ArePairs (an_int n ∷ rest) fs e = cc
  fields_of-ArePairs (a_bool b ∷ rest) fs e = cc
  fields_of-ArePairs (an_other v ∷ rest) fs e = cc

-- The severity of a message of a level.
unfoldable pub IsAt : Level → Severity → Type 0
IsAt level_debug s = s ≡ debug
IsAt level_info s = s ≡ info
IsAt level_warn s = s ≡ warn
IsAt level_error s = s ≡ error
IsAt (other_level n) s = ⊥

severity_of_iff : (level : Level) (s : Severity) → (severity_of level ≡ some s) ↔ IsAt level s
unfolding severity_of IsAt
severity_of_iff level_debug s = (λ e. ground (arith, e), λ e. rw e refl)
severity_of_iff level_info s = (λ e. ground (arith, e), λ e. rw e refl)
severity_of_iff level_warn s = (λ e. ground (arith, e), λ e. rw e refl)
severity_of_iff level_error s = (λ e. ground (arith, e), λ e. rw e refl)
severity_of_iff (other_level n) s = (λ e. cc, λ x. absurd x)

module _ {V : Type 0} where
  -- A text, a whole number and a truth value have a field of their own type, any other value one
  -- that holds it as it is.
  unfoldable pub IsField : Text × Any V → Field V → Type 0
  IsField (key, a_string s) f = f ≡ string_field key s
  IsField (key, an_int n) f = f ≡ int_field key n
  IsField (key, a_bool b) f = f ≡ bool_field key b
  IsField (key, an_other v) f = f ≡ any_field key (an_other v)

  field_of_iff :
      (key : Text) (value : Any V) (f : Field V) → (f ≡ field_of key value) ↔ IsField (key, value) f
  unfolding field_of IsField
  field_of_iff key (a_string s) f = (λ e. e, λ e. e)
  field_of_iff key (an_int n) f = (λ e. e, λ e. e)
  field_of_iff key (a_bool b) f = (λ e. e, λ e. e)
  field_of_iff key (an_other v) f = (λ e. e, λ e. e)

  -- Each pair has its field, in their order.
  unfoldable pub AreFields : List (Text × Any V) → List (Field V) → Type 0
  AreFields [] fs = fs ≡ []
  AreFields (p ∷ ps) fs =
      (f : Field V) × (gs : List (Field V)) × (fs ≡ f ∷ gs) × IsField p f × AreFields ps gs

  fields_at-AreFields : (ps : List (Text × Any V)) → AreFields ps (fields_at ps)
  unfolding AreFields
  fields_at-AreFields [] = refl
  fields_at-AreFields ((key, value) ∷ ps) =
      (_, _, refl, (field_of_iff key value (field_of key value)).0 refl, fields_at-AreFields ps)

  AreFields-unique :
      (ps : List (Text × Any V)) (fs : List (Field V)) → AreFields ps fs → fs ≡ fields_at ps
  unfolding AreFields
  AreFields-unique [] fs e = e
  AreFields-unique ((key, value) ∷ ps) fs (f, gs, e, is, rest) =
      rw (e, (field_of_iff key value f).1 is, AreFields-unique ps gs rest) refl

module _ {L V : Type 0} (skipping : ℕ → L → L) (with_fields : List (Field V) → L → L) where
  abbrev pub entry_at : L → Text → Severity → List (Field V) → Entry L V
  entry_at l msg severity fs = record {
    logger = with_fields fs (skipping 1 l);
    severity = severity;
    message = msg;
    fields = [];
  }

  abbrev pub Reaches : L → Level → Text → List (Any V) → Entry L V → Type 0
  Reaches l level msg vs e =
      (pairs : List (Text × Any V)) × (fs : List (Field V)) × (severity : Severity) × (vs
        ≡ flattened pairs)
      × AreFields pairs fs
      × IsAt level severity
      × (e ≡ entry_at l msg severity fs)

  entry_of-Reaches :
      (l : L) (level : Level) (msg : Text) (vs : List (Any V)) (e : Entry L V)
      (o : Option (List (Field V))) (s : Option Severity)
      → fields_of vs ≡ o
      → severity_of level ≡ s
      → entry_of skipping with_fields l msg o s ≡ some e
      → Reaches l level msg vs e
  entry_of-Reaches l level msg vs e none s p q h = cc
  entry_of-Reaches l level msg vs e (some fs) none p q h = cc
  entry_of-Reaches l level msg vs e (some fs) (some severity) p q h =
      let (pairs, a, b) = fields_of-ArePairs vs fs p in
      let here : entry_at l msg severity fs ≡ e = ground (arith, h) in
      (
        pairs,
        fs,
        severity,
        a,
        subst (AreFields pairs) (sym b) (fields_at-AreFields pairs),
        (severity_of_iff level severity).0 q,
        sym here,
      )

  -- The interceptor's message reaches zap exactly where its fields are string keys with values, in
  -- turn, and its level is one of the four: then with these fields, each as its type has it and in
  -- their order, at the severity of this level. Everywhere else the adapter panics.
  pub interceptor_logger_iff :
      (l : L) (level : Level) (msg : Text) (vs : List (Any V)) (e : Entry L V)
      → (interceptor_logger skipping with_fields l level msg vs ≡ some e) ↔ Reaches l level msg vs e
  unfolding interceptor_logger
  interceptor_logger_iff l level msg vs e = (
    entry_of-Reaches l level msg vs e (fields_of vs) (severity_of level) refl refl,
    λ (pairs, fs, severity, p, fields, at, r).
        rw
          (
            p,
            fields_of-flattened pairs,
            (severity_of_iff level severity).1 at,
            r,
            AreFields-unique pairs fs fields,
          )
          refl,
  )

-- The logger that a context was given last is the one that is found in it.
logger_for_context-context_with_logger :
    {L V : Type 0} (std : ℕ → L) (sprintf : Text → List (Any V) → Text) (ctx : Context L V) (l : L)
    → logger_for_context std sprintf (context_with_logger ctx l) ≡ l
unfolding logger_for_context value_of logger_or_std context_with_logger
logger_for_context-context_with_logger std sprintf ctx l =
    rw (text_eq_refl context_key_logging) refl
