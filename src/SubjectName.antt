-- ===== src/SubjectName.antt =====
-- Subject name strategies: src/serdes/SerdeConfig.cpp, and `parseSubjectNameStrategyType` of
-- src/serdes/SerdeTypes.cpp.
pub mod Associated
pub mod Caching
use libschemaregistry.Association.Types.{Association}
use libschemaregistry.Cache.{Cache, init}
use libschemaregistry.Cache
use libschemaregistry.Exec.{Exec, pure, raise, ◌>>=◌, bind_outcome}
use libschemaregistry.Model.{Schema}
use libschemaregistry.Outcome.{
  Exception, Outcome, ok, throw, undefined, serialization_error, no_strategy, rest_exception,
}
use libschemaregistry.Prelude.Dict.{Dict, lookup}
use libschemaregistry.Prelude.{
  ℕ, ◌-◌, ◌^◌, Bool, true, false, ◌&&◌, ◌||◌, List, [], ◌∷◌, ◌++◌, Option, none, some, Text, codes,
  text_dec, ite, ltb, leb, ◌==◌, if◌then◌else◌,
}
use libschemaregistry.Transport.{SerdeType, serde_key, serde_value}

pub data SubjectNameStrategyType : Type 0 where
  no_name topic_name record_name topic_record_name associated_name : SubjectNameStrategyType

abbrev pub Strategy : Type 0
Strategy = Text → SerdeType → Option Schema → Outcome (Option Text)

-- A `std::function`, which may be empty.
abbrev pub RecordNameFunc : Type 0
RecordNameFunc = Option (Option Schema → Outcome Text)

unfoldable pub topic_name_strategy : Strategy
topic_name_strategy topic serde_key schema = ok (some (topic ++ codes "-key"))
topic_name_strategy topic serde_value schema = ok (some (topic ++ codes "-value"))

abbrev named : (Text → Text) → Outcome Text → Outcome (Option Text)
named f (ok name) = ok (some (f name))
named f (throw e) = throw e
named f undefined = undefined

unfoldable pub record_name_strategy : (Option Schema → Outcome Text) → Strategy
record_name_strategy get_record_name topic type none = ok none
record_name_strategy get_record_name topic type (some schema) =
    named (λ name. name) (get_record_name (some schema))

unfoldable pub topic_record_name_strategy : (Option Schema → Outcome Text) → Strategy
topic_record_name_strategy get_record_name topic type none = ok none
topic_record_name_strategy get_record_name topic type (some schema) =
    named (λ name. topic ++ (codes "-" ++ name)) (get_record_name (some schema))

unfoldable pub strategy_func : SubjectNameStrategyType → RecordNameFunc → Outcome (Option Strategy)
strategy_func topic_name get_record_name = ok (some topic_name_strategy)
strategy_func record_name none =
    throw (serialization_error (codes "Record strategy requires a get_record_name function"))
strategy_func record_name (some f) = ok (some (record_name_strategy f))
strategy_func topic_record_name none =
    throw (serialization_error (codes "TopicRecord strategy requires a get_record_name function"))
strategy_func topic_record_name (some f) = ok (some (topic_record_name_strategy f))
strategy_func no_name get_record_name = ok none
strategy_func associated_name get_record_name = ok none

-- `::toupper` on a signed `char`, in the "C" locale; the byte 255 is EOF.
unfoldable pub to_upper : ℕ → Outcome ℕ
to_upper c =
    if ltb c 128 || c == 255 then ok (if leb 97 c && leb c 122 then c - 32 else c) else undefined

unfoldable pub upper : Text → Outcome Text
upper [] = ok []
upper (c ∷ s) = upper_cons (to_upper c) (upper s)
  where
    upper_cons : Outcome ℕ → Outcome Text → Outcome Text
    upper_cons (ok d) (ok t) = ok (d ∷ t)
    upper_cons (throw e) r = throw e
    upper_cons undefined r = undefined
    upper_cons (ok d) (throw e) = throw e
    upper_cons (ok d) undefined = undefined

unfoldable pub strategy_type_of : Text → Text → Outcome SubjectNameStrategyType
strategy_type_of s t = ite (text_dec t (codes "TOPIC")) (ok topic_name) (
    ite (text_dec t (codes "RECORD")) (ok record_name) (
      ite (text_dec t (codes "TOPIC_RECORD")) (ok topic_record_name) (
        ite (text_dec t (codes "ASSOCIATED")) (ok associated_name)
          (ite (text_dec t (codes "NONE")) (ok no_name) (throw (no_strategy s))))))

abbrev then_type : Text → Outcome Text → Outcome SubjectNameStrategyType
then_type s (ok t) = strategy_type_of s t
then_type s (throw e) = throw e
then_type s undefined = undefined

unfoldable pub parse_subject_name_strategy_type : Text → Outcome SubjectNameStrategyType
parse_subject_name_strategy_type s = then_type s (upper s)
