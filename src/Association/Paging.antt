-- ===== src/Association/Paging.antt =====
-- Offset and limit of `getAssociationsByResourceName` (src/rest/MockSchemaRegistryClient.cpp).
use libschemaregistry.Association.Types.{Association, MockAssociationStore}
use libschemaregistry.Association.{
  int32_lt, int32_size, skip, limit_to, collect, get_associations_by_resource_name,
}
use native.Mathlib.Nat.{suc-add}
use libschemaregistry.Prelude.{
  ℕ, zero, suc, ◌+◌, ◌≤◌, ◌<◌, List, [], ◌∷◌, ◌++◌, Text, ltb, ◌≡◌, refl, ap, arith, length, take,
  drop, length-drop, ◌∙◌, sym,
}

-- The first bit pattern of a negative `int32_t`.
abbrev pub int32_sign : ℕ
int32_sign = 2147483648

int32_lt-eq-ltb : (a b : ℕ) → a < int32_sign → b < int32_sign → int32_lt a b ≡ ltb a b
unfolding int32_lt
int32_lt-eq-ltb a b h k = ground arith

drop_all : (n : ℕ) (l : List Association) → length l ≤ n → drop n l ≡ []
drop_all zero [] h = refl
drop_all zero (a ∷ l) h = absurd (omega arith)
drop_all (suc n) [] h = refl
drop_all (suc n) (a ∷ l) h = drop_all n l (omega arith)

take_all : (n : ℕ) (l : List Association) → length l ≤ n → take n l ≡ l
take_all zero [] h = refl
take_all zero (a ∷ l) h = absurd (omega arith)
take_all (suc n) [] h = refl
take_all (suc n) (a ∷ l) h = ap (◌∷◌ a) (take_all n l (omega arith))

take_nothing : (n : ℕ) → ◌≡◌ {A = List Association} (take n []) []
take_nothing zero = refl
take_nothing (suc n) = refl

drop_nothing : (n : ℕ) → ◌≡◌ {A = List Association} (drop n []) []
drop_nothing zero = refl
drop_nothing (suc n) = refl

take_sum : (n m : ℕ) (l : List Association) → take (n + m) l ≡ take n l ++ take m (drop n l)
take_sum zero m l = ap (λ i. take i l) (omega arith)
take_sum (suc n) m [] = take_nothing (suc n + m) ∙ sym (take_nothing m)
take_sum (suc n) m (a ∷ l) = ap (λ i. take i (a ∷ l)) (suc-add n m) ∙ ap (◌∷◌ a) (take_sum n m l)

drop-drop : (n k : ℕ) (l : List Association) → drop n (drop k l) ≡ drop (k + n) l
drop-drop n zero l = ap (λ i. drop i l) (omega arith)
drop-drop n (suc k) [] = drop_nothing n ∙ sym (drop_nothing (suc k + n))
drop-drop n (suc k) (a ∷ l) = drop-drop n k l ∙ sym (ap (λ i. drop i (a ∷ l)) (suc-add k n))

skip-eq-drop :
    (offset : ℕ) (l : List Association)
    → offset < int32_sign
    → length l < int32_sign
    → skip offset l ≡ drop offset l
unfolding skip
skip-eq-drop zero [] h k = ground arith
skip-eq-drop zero (a ∷ l) h k = ground (arith, int32_lt-eq-ltb 0 (int32_size (a ∷ l)))
skip-eq-drop (suc n) l h k =
    ground
      (arith, int32_lt-eq-ltb 0 (suc n), int32_lt-eq-ltb (suc n) (int32_size l), drop_all (suc n) l)

limit_to-eq-take :
    (limit : ℕ) (l : List Association)
    → limit < int32_sign
    → length l < int32_sign
    → limit_to limit l ≡ take limit l
unfolding limit_to
limit_to-eq-take limit l h k =
    ground (arith, int32_lt-eq-ltb limit 0, int32_lt-eq-ltb limit (int32_size l), take_all limit l)

abbrev matching : Text → Text → Text → List Text → Text → MockAssociationStore → List Association
matching name namespace type types lifecycle st =
    collect name namespace type types lifecycle st.associations

page-eq :
    (name namespace type : Text) (types : List Text) (lifecycle : Text) (offset limit : ℕ)
    (st : MockAssociationStore)
    → offset < int32_sign
    → limit < int32_sign
    → length (matching name namespace type types lifecycle st) < int32_sign
    → get_associations_by_resource_name name namespace type types lifecycle offset limit st
      ≡ take limit (drop offset (matching name namespace type types lifecycle st))
unfolding get_associations_by_resource_name
page-eq name namespace type types lifecycle offset limit st h k small =
    let all = matching name namespace type types lifecycle st in
    ap (limit_to limit) (skip-eq-drop offset all h small)
    ∙ limit_to-eq-take limit (drop offset all) k (omega (arith, length-drop offset all))

-- Take fewer than 2 ^ 31 associations that pass the filters, and an offset and limits that are not
-- negative and whose sum is below 2 ^ 31. A page of `first + second` associations is the page of
-- `first` followed by the page of `second` that starts after it: pages neither overlap nor leave
-- anything out.
pub page-append :
    (name namespace type : Text) (types : List Text) (lifecycle : Text) (offset first second : ℕ)
    (st : MockAssociationStore)
    → offset + first + second < int32_sign
    → length (collect name namespace type types lifecycle st.associations) < int32_sign
    → get_associations_by_resource_name name namespace type types lifecycle offset
        (first + second)
        st
      ≡ get_associations_by_resource_name name namespace type types lifecycle offset first st
        ++ get_associations_by_resource_name name namespace type types lifecycle
            (offset + first)
            second
            st
page-append name namespace type types lifecycle offset first second st h small =
    let all = matching name namespace type types lifecycle st in
    let page = page-eq name namespace type types lifecycle in
    rw
      (
        page offset (first + second) st (omega arith) (omega arith) small,
        page offset first st (omega arith) (omega arith) small,
        page (offset + first) second st (omega arith) (omega arith) small,
        take_sum,
        drop-drop,
      )
      refl
