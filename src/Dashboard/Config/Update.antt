-- ===== src/Dashboard/Config/Update.antt =====
-- What the loop of `update` in dashboard/src/pages/Config.tsx does to an object.
use go_php.Prelude.{
  String, ◌≡◌, refl, Bool, true, false, List, [], ◌∷◌, inl, inr, if◌then◌else◌, str_eq, eq_iff,
  eq_refl, Bool-cases, sym, ◌∙◌, ap,
}
use mathlib.Core.Path.{subst}
use go_php.Dashboard.Json.{Json, Fields, undefined, array, object, end, field, get_field, set_field}
use go_php.Dashboard.Config.{
  Walked, done, throws, outside, is_inherited, put_inner, set_last, assign, split_dots, update,
}

-- Reading along a path, as the fields of the form read their values; `undefined` is read of a value
-- that has no members.
unfoldable pub get_path : List String → Json → Json
unfolding get_field
get_path [] v = v
get_path (k ∷ ks) (object m) = get_path ks (get_field k m)
get_path (k ∷ ks) _ = undefined

-- Two paths part before either ends.
unfoldable pub part : List String → List String → Bool
part [] js = false
part (k ∷ ks) [] = false
part (k ∷ ks) (j ∷ js) = let deeper = part ks js in if str_eq k j then deeper else true

get_field-set_field : (k : String) (v : Json) (m : Fields) → get_field k (set_field k v m) ≡ v
unfolding get_field set_field
get_field-set_field k v end = rw eq_refl refl
get_field-set_field k v (field j w m) = elim (Bool-cases (str_eq j k)) [
  | inl same ↦ rw (same, get_field, same) refl
  | inr other ↦ rw (other, get_field, other) (get_field-set_field k v m)
]

get_field-set_field_other :
    (k i : String) (v : Json) (m : Fields)
    → str_eq k i ≡ false
    → get_field i (set_field k v m) ≡ get_field i m
unfolding get_field set_field
get_field-set_field_other k i v end h = rw h refl
get_field-set_field_other k i v (field j w m) h = elim (Bool-cases (str_eq j k)) [
  | inl same ↦
      let differs : str_eq j i ≡ false = ap (λ s. str_eq s i) ((eq_iff j k).0 same) ∙ h in
      rw (same, get_field, differs) refl
  | inr other ↦
      rw (other, get_field)
        (elim (Bool-cases (str_eq j i)) [
          | inl hit ↦ rw hit refl
          | inr miss ↦ rw miss (get_field-set_field_other k i v m h)
        ])
]

unwrap : Walked → Json → Json
unwrap (done v) d = v
unwrap throws d = d
unwrap outside d = d

done-injective : (v w : Json) → done v ≡ done w → v ≡ w
unfolding unwrap
done-injective v w e = ap (λ r. unwrap r v) e

-- The value that the path names is what was written, and a path that parts from it reads as before.
abbrev pub Written : List String → Json → Json → Json → Type 0
Written ks v obj next =
    (get_path ks next ≡ v)
    × ((js : List String) → part ks js ≡ true → get_path js next ≡ get_path js obj)

write_last :
    (k : String) (v : Json) (m : Fields) → Written (k ∷ []) v (object m) (object (set_field k v m))
unfolding get_path part
write_last k v m = (get_field-set_field k v m, others)
  where
    others :
        (js : List String)
        → part (k ∷ []) js ≡ true
        → get_path js (object (set_field k v m)) ≡ get_path js (object m)
    others [] h = absurd (cc)
    others (j ∷ js) h = elim (Bool-cases (str_eq k j)) [
      | inl same ↦ let no : false ≡ true = rw same at h in absurd (cc)
      | inr other ↦ rw (get_field-set_field_other k j v m other) refl
    ]

write_inside :
    (k : String) (ks : List String) (v inner : Json) (m : Fields)
    → Written ks v (get_field k m) inner
    → Written (k ∷ ks) v (object m) (object (set_field k inner m))
unfolding get_path part
write_inside k ks v inner m (here, others) = (rw get_field-set_field here, rest)
  where
    rest :
        (js : List String)
        → part (k ∷ ks) js ≡ true
        → get_path js (object (set_field k inner m)) ≡ get_path js (object m)
    rest [] h = absurd (cc)
    rest (j ∷ js) h = elim (Bool-cases (str_eq k j)) [
      | inl same ↦
          let deeper : part ks js ≡ true = rw same at h in
          rw (sym ((eq_iff k j).0 same), get_field-set_field) (others js deeper)
      | inr other ↦ rw (get_field-set_field_other k j inner m other) refl
    ]

put_inner-Written :
    (k : String) (ks : List String) (v next : Json) (m : Fields) (w : Walked)
    → ((inner : Json) → w ≡ done inner → Written ks v (get_field k m) inner)
    → put_inner k m w ≡ done next
    → Written (k ∷ ks) v (object m) next
put_inner-Written k ks v next m (done inner) below h =
    subst (Written (k ∷ ks) v (object m)) (done-injective _ _ h)
      (write_inside k ks v inner m (below inner refl))
put_inner-Written k ks v next m throws below h = absurd (cc)
put_inner-Written k ks v next m outside below h = absurd (cc)

set_last-Written :
    (k : String) (v obj next : Json) → set_last k v obj ≡ done next → Written (k ∷ []) v obj next
unfolding set_last
set_last-Written k v (object m) next h =
    subst (Written (k ∷ []) v (object m)) (done-injective _ _ h) (write_last k v m)
set_last-Written k v (array xs) next h = absurd (cc)
set_last-Written k v _ next h = absurd (cc)

assign-Written :
    (ks : List String) (v obj next : Json) → assign ks v obj ≡ done next → Written ks v obj next
unfolding assign
assign-Written [] v obj next h = absurd (cc)
assign-Written (k ∷ []) v obj next h = elim (Bool-cases (str_eq k "__proto__")) [
  | inl prototype ↦ let no : outside ≡ done next = rw prototype at h in absurd (cc)
  | inr own ↦ set_last-Written k v obj next (rw own at h)
]
assign-Written (k ∷ j ∷ ks) v (object m) next h = elim (Bool-cases (is_inherited k)) [
  | inl foreign ↦ let no : outside ≡ done next = rw foreign at h in absurd (cc)
  | inr own ↦
      let put : put_inner k m (assign (j ∷ ks) v (get_field k m)) ≡ done next = rw own at h in
      put_inner-Written k (j ∷ ks) v next m (assign (j ∷ ks) v (get_field k m))
        (λ inner e. assign-Written (j ∷ ks) v (get_field k m) inner e) put
]
assign-Written (k ∷ j ∷ ks) v undefined next h = absurd (cc)
assign-Written (k ∷ j ∷ ks) v _ next h = absurd (cc)

-- If the walk of an update is through own members of plain objects to its end, then reading the path
-- gives the value that was written, and every path that parts from it reads what it read before.
pub update-Written :
    (path : String) (v obj next : Json)
    → update path v obj ≡ done next
    → Written (split_dots path) v obj next
unfolding update
update-Written path v obj next h = assign-Written (split_dots path) v obj next h
