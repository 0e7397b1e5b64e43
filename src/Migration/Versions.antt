-- ===== src/Migration/Versions.antt =====
-- The versions that `getSchemasBetween` (src/serdes/Serde.cpp) fetches.
use libschemaregistry.Client.{Client, IsLawful}
use libschemaregistry.Exec.{pure, ◌>>=◌, bind-eq-ok, pure-inj}
use libschemaregistry.Migration.{fetch, get_schemas_between}
use libschemaregistry.Mock.Store.{generation}
use libschemaregistry.Model.{RegisteredSchema}
use libschemaregistry.Outcome.{Outcome, ok}
use libschemaregistry.Prelude.{
  ℕ, zero, suc, ◌+◌, ◌-◌, ◌<◌, Bool, true, false, List, [], ◌∷◌, ◌++◌, map, Option, Text, ltb,
  if◌then◌else◌, ◌≡◌, refl, sym, ap, ◌∙◌, arith,
}

-- The numbers from one on, as many as asked for.
abbrev pub range : ℕ → ℕ → List ℕ
range start zero = []
range start (suc n) = start ∷ range (suc start) n

pub range-append : (start n : ℕ) → range start n ++ ((start + n) ∷ []) ≡ range start (suc n)
range-append start zero = ap (λ k. k ∷ []) (omega arith)
range-append start (suc n) =
    ap (◌∷◌ start)
      (ap (λ k. range (suc start) n ++ (k ∷ [])) (omega arith) ∙ range-append (suc start) n)

map-append : {A B : Type 0} (f : A → B) (xs ys : List A) → map f (xs ++ ys) ≡ map f xs ++ map f ys
map-append f [] ys = refl
map-append f (x ∷ xs) ys = ap (◌∷◌ (f x)) (map-append f xs ys)

module _ {W : Type 0} (client : Client W) (lawful : IsLawful client) where
  fetch-versions :
      (subject : Text) (format : Option Text) (count version : ℕ) (w w' : W)
      (l : List RegisteredSchema)
      → fetch client subject format count version w ≡ (ok l, w')
      → map generation l ≡ range version count
  unfolding fetch
  fetch-versions subject format zero version w w' l h = ap (map generation) (pure-inj h)
  fetch-versions subject format (suc count) version w w' l h =
      let (rs, w1, first, h1) =
        bind-eq-ok (client.get_version subject version true format)
          (λ schema.
            fetch client subject format count (suc version) >>= λ rest. pure (schema ∷ rest))
          w h in
      let (rest, w2, others, h2) =
        bind-eq-ok (fetch client subject format count (suc version)) (λ rest. pure (rs ∷ rest)) w1
          h1 in
      let asked = lawful.version_asked subject version true format rs w w1 first in
      let tail = fetch-versions subject format count (suc version) w1 w2 rest others in
      ap (map generation) (pure-inj h2) ∙ cc (asked, tail)

  near-versions :
      (first last : RegisteredSchema)
      → generation last ≡ suc (generation first)
      → map generation (first ∷ last ∷ [])
        ≡ range (generation first) (suc (generation last - generation first))
  near-versions first last e =
      let one : generation last - generation first ≡ 1 = omega arith in
      ap (λ k. generation first ∷ k ∷ []) e
      ∙ ap (λ n. generation first ∷ range (suc (generation first)) n) (sym one)

  far-versions :
      (first last : RegisteredSchema) (between : List RegisteredSchema) (count : ℕ)
      → generation last ≡ suc (generation first) + count
      → map generation between ≡ range (suc (generation first)) count
      → map generation (first ∷ between ++ (last ∷ []))
        ≡ range (generation first) (suc (generation last - generation first))
  far-versions first last between count e h =
      let start = suc (generation first) in
      let more : suc count ≡ generation last - generation first = omega arith in
      ap (◌∷◌ (generation first)) (
        map-append generation between (last ∷ [])
        ∙ ap (λ xs. xs ++ (generation last ∷ [])) h
        ∙ ap (λ k. range start count ++ (k ∷ [])) e
        ∙ range-append start count
        ∙ ap (range start) more)

  choose-versions :
      (subject : Text) (first last : RegisteredSchema) (format : Option Text) (w w' : W)
      (l : List RegisteredSchema) (b : Bool)
      → generation first < generation last
      → ltb (generation last - generation first) 2 ≡ b
      → ◌≡◌ {A = Outcome (List RegisteredSchema) × W}
          ((if b
              then pure (first ∷ last ∷ [])
              else (fetch client subject format
                    (generation last - suc (generation first))
                    (suc (generation first))
                  >>= λ between. pure (first ∷ between ++ (last ∷ []))))
            w)
          (ok l, w')
      → map generation l ≡ range (generation first) (suc (generation last - generation first))
  choose-versions subject first last format w w' l true lt near h =
      ap (map generation) (pure-inj h) ∙ near-versions first last (ground arith)
  choose-versions subject first last format w w' l false lt far h =
      let count = generation last - suc (generation first) in
      let (between, w1, fetched, h1) =
        bind-eq-ok (fetch client subject format count (suc (generation first)))
          (λ between. pure (first ∷ between ++ (last ∷ []))) w h in
      let versions =
        fetch-versions subject format count (suc (generation first)) w w1 between fetched in
      ap (map generation) (pure-inj h1)
      ∙ far-versions first last between count (omega arith) versions

  -- `getSchemasBetween`, from an older version to a newer one, where it returns, gives a schema of
  -- every version from the one to the other, in order.
  pub get_schemas_between-versions :
      (subject : Text) (first last : RegisteredSchema) (format : Option Text) (w w' : W)
      (l : List RegisteredSchema)
      → generation first < generation last
      → get_schemas_between client subject first last format w ≡ (ok l, w')
      → map generation l ≡ range (generation first) (suc (generation last - generation first))
  unfolding get_schemas_between
  get_schemas_between-versions subject first last format w w' l lt h =
      choose-versions subject first last format w w' l (ltb (generation last - generation first) 2)
        lt refl h
