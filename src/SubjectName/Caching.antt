-- ===== src/SubjectName/Caching.antt =====
-- The cache of `AssociatedNameStrategy` (src/serdes/Serde.cpp) does not show.
use libschemaregistry.Association.Types.{Association}
use libschemaregistry.Cache.Invariant.{IsValid, get-IsValid, put-IsValid}
use libschemaregistry.Cache.Values.{init-fresh, Values, get-Values, put-Values}
use libschemaregistry.Cache.{Cache, init, get}
use libschemaregistry.Model.{Schema}
use libschemaregistry.Outcome.{Outcome, ok, throw, undefined}
use mathlib.Core.Path.{ap₂}
use libschemaregistry.Prelude.{
  ℕ, List, [], ◌∷◌, Option, none, some, Text, codes, ◌≡◌, refl, ap, sym, ◌∙◌, subst, map,
}
use libschemaregistry.SubjectName.Associated.{
  SubjectCacheKey, subject_cache_key_dec, AssociatedNameStrategy, AssociatedState, FindAssociations,
  association_type, schema_text, or_none_found, then_choose, no_limit, keep_loaded,
  load_associated_subject_name, cache_key_of, store_subject, found_or_loaded, get_subject,
}
use libschemaregistry.Transport.{SerdeType, serde_key, serde_value}

module _ {W : Type 0} (strategy : AssociatedNameStrategy) (find : FindAssociations W)
    (clock : W → ℕ × W) (answer : Text → Text → Text → List Text → Outcome (List Association)) where
  -- The client's answers depend on what is asked for alone.
  abbrev pub Answers : Type 0
  Answers =
      (name namespace type : Text) (types : List Text) (w : W)
      → (find name namespace type types [] 0 no_limit w).0 ≡ answer name namespace type types

  -- What the strategy gives without its cache.
  abbrev pub subject_of : Text → SerdeType → Option Schema → Outcome (Option Text)
  subject_of [] type schema = ok none
  subject_of (c ∷ cs) type schema = then_choose strategy.fallback_strategy (c ∷ cs) type schema (
      or_none_found
        (answer (c ∷ cs) strategy.kafka_cluster_id (codes "topic") (association_type type ∷ [])))

  -- The fallback reads nothing of a schema but its text, which is all that the cache keeps of it.
  abbrev pub ReadsText : Type 0
  ReadsText =
      (topic : Text) (type : SerdeType) (s t : Option Schema)
      → schema_text s ≡ schema_text t
      → subject_of topic type s ≡ subject_of topic type t

  -- Every cached subject is what the strategy gives for some schema of that text.
  abbrev pub IsSubject : SubjectCacheKey → Option Text → Type 0
  IsSubject key subject =
      (topic : Text) × (type : SerdeType) × (schema : Option Schema) × (key
        ≡ cache_key_of strategy find clock topic type schema)
      × (subject_of topic type schema ≡ ok subject)

  pub record IsFaithful (s : AssociatedState W) : Type 0 where
    pub subjects : Values subject_cache_key_dec IsSubject s.subject_name_cache
    pub valid : IsValid subject_cache_key_dec s.subject_name_cache

  same_subject :
      (topic topic' : Text) (type type' : SerdeType) (s t : Option Schema)
      → ReadsText
      → cache_key_of strategy find clock topic type s
        ≡ cache_key_of strategy find clock topic' type' t
      → subject_of topic type s ≡ subject_of topic' type' t
  same_subject topic topic' serde_key serde_key s t reads h =
      reads topic serde_key s t (ap (λ k. k.schema) h)
      ∙ ap (λ n. subject_of n serde_key t) (ap (λ k. k.topic) h)
  same_subject topic topic' serde_value serde_value s t reads h =
      reads topic serde_value s t (ap (λ k. k.schema) h)
      ∙ ap (λ n. subject_of n serde_value t) (ap (λ k. k.topic) h)
  same_subject topic topic' serde_key serde_value s t reads h = absurd (cc (ap (λ k. k.is_key) h))
  same_subject topic topic' serde_value serde_key s t reads h = absurd (cc (ap (λ k. k.is_key) h))

  -- A step of the strategy: its outcome is the subject, and its cache stays faithful.
  abbrev Right :
      Text → SerdeType → Option Schema → Outcome (Option Text) × AssociatedState W → Type 0
  Right topic type schema (r, s) = (r ≡ subject_of topic type schema) × IsFaithful s

  keep_loaded-Right :
      (c : ℕ) (cs : Text) (type : SerdeType) (schema : Option Schema) (r : Outcome (Option Text))
      (w : W) (s : AssociatedState W)
      → r ≡ subject_of (c ∷ cs) type schema
      → IsFaithful s
      → Right (c ∷ cs) type schema (keep_loaded strategy find clock (c ∷ cs) type schema r w s)
  unfolding keep_loaded store_subject
  keep_loaded-Right c cs type schema (throw e) w s same f =
      (same, record { subjects = f.subjects; valid = f.valid })
  keep_loaded-Right c cs type schema undefined w s same f =
      (same, record { subjects = f.subjects; valid = f.valid })
  keep_loaded-Right c cs type schema (ok subject) w s same f =
      let k = cache_key_of strategy find clock (c ∷ cs) type schema in
      let (now1, w1) = clock w in
      let (now2, w2) = clock w1 in
      let (c', stored, valid) =
        put-IsValid subject_cache_key_dec k subject now1 now2 s.subject_name_cache f.valid in
      let subjects =
        put-Values subject_cache_key_dec IsSubject k subject now1 now2 s.subject_name_cache c'
          ((c ∷ cs), type, schema, refl, sym same) f.subjects stored in
      subst (λ o. Right (c ∷ cs) type schema (store_subject strategy find clock subject w2 o s))
        (sym stored) (same, record { subjects = subjects; valid = valid })

  found_or_loaded-Right :
      (c : ℕ) (cs : Text) (type : SerdeType) (schema : Option Schema)
      (cached : Option (Option Text)) (s : AssociatedState W)
      → Answers
      → ReadsText
      → IsFaithful s
      → ((subject : Option Text)
          → cached ≡ some subject
          → IsSubject (cache_key_of strategy find clock (c ∷ cs) type schema) subject)
      → Right
          (c ∷ cs)
          type
          schema
          (found_or_loaded strategy find clock (c ∷ cs) type schema cached s)
  unfolding found_or_loaded load_associated_subject_name
  found_or_loaded-Right c cs type schema (some subject) s answers reads f known =
      let (topic', type', schema', same, loaded) = known subject refl in
      (sym (same_subject (c ∷ cs) topic' type type' schema schema' reads same ∙ loaded), f)
  found_or_loaded-Right c cs type schema none s answers reads f known =
      keep_loaded-Right c cs type schema _ _ s
        (ap (λ o. then_choose strategy.fallback_strategy (c ∷ cs) type schema (or_none_found o))
          (answers (c ∷ cs) strategy.kafka_cluster_id (codes "topic") (association_type type ∷ [])
            s.world))
        f

  get_subject-Right :
      (topic : Text) (type : SerdeType) (schema : Option Schema) (s : AssociatedState W)
      → Answers
      → ReadsText
      → IsFaithful s
      → Right topic type schema (get_subject strategy find clock topic type schema s)
  unfolding get_subject
  get_subject-Right [] type schema s answers reads f = (refl, f)
  get_subject-Right (c ∷ cs) type schema s answers reads f =
      let k = cache_key_of strategy find clock (c ∷ cs) type schema in
      let (now1, w1) = clock s.world in
      let (now2, w2) = clock w1 in
      let (subjects, known) =
        get-Values subject_cache_key_dec IsSubject k now1 now2 s.subject_name_cache f.subjects in
      found_or_loaded-Right c cs type schema
        (get subject_cache_key_dec k now1 now2 s.subject_name_cache).1
        (record {
          subject_name_cache = (get subject_cache_key_dec k now1 now2 s.subject_name_cache).0;
          world = w2;
        })
        answers reads
        (record {
          subjects = subjects;
          valid = get-IsValid subject_cache_key_dec k now1 now2 s.subject_name_cache f.valid;
        })
        known

-- The outcomes of asking for subjects, one after the other.
module _ {W : Type 0} (strategy : AssociatedNameStrategy) (find : FindAssociations W)
    (clock : W → ℕ × W) where
  unfoldable pub get_subjects :
      List (Text × SerdeType × Option Schema) → AssociatedState W → List (Outcome (Option Text))
  get_subjects [] s = []
  get_subjects ((topic, type, schema) ∷ asked) s =
      let (r, s') = get_subject strategy find clock topic type schema s in r ∷ get_subjects asked s'

module _ {W : Type 0} (strategy : AssociatedNameStrategy) (find : FindAssociations W)
    (clock : W → ℕ × W) (answer : Text → Text → Text → List Text → Outcome (List Association)) where
  faithful-get_subjects :
      (asked : List (Text × SerdeType × Option Schema)) (s : AssociatedState W)
      → Answers strategy find clock answer
      → ReadsText strategy find clock answer
      → IsFaithful strategy find clock answer s
      → get_subjects strategy find clock asked s
        ≡ map (λ q. subject_of strategy find clock answer q.0 q.1 q.2) asked
  unfolding get_subjects
  faithful-get_subjects [] s answers reads f = refl
  faithful-get_subjects ((topic, type, schema) ∷ asked) s answers reads f =
      let (same, f') =
        get_subject-Right strategy find clock answer topic type schema s answers reads f in
      ap₂ ◌∷◌ same (faithful-get_subjects asked _ answers reads f')

  -- Take a client whose answers depend on what is asked for alone, and a fallback that reads nothing
  -- of a schema but its text. Whatever subjects are asked for, one after the other from an empty
  -- cache on, the outcomes, exceptions included, are those of the strategy without its cache,
  -- whatever the clock shows and whatever is evicted.
  pub get_subjects-eq-subject_of :
      (asked : List (Text × SerdeType × Option Schema)) (w : W)
      (c : Cache SubjectCacheKey (Option Text))
      → Answers strategy find clock answer
      → ReadsText strategy find clock answer
      → init 1000 none ≡ some c
      → get_subjects strategy find clock asked (record { subject_name_cache = c; world = w })
        ≡ map (λ q. subject_of strategy find clock answer q.0 q.1 q.2) asked
  get_subjects-eq-subject_of asked w c answers reads fresh =
      let (values, valid) = init-fresh subject_cache_key_dec _ 1000 none c fresh in
      faithful-get_subjects asked _ answers reads (record { subjects = values; valid = valid })
