-- ===== src/Session/Variables/Initial.antt =====
-- The variables of a new session, which are made from the declarations.
use mathlib.Core.Option
use tateyama.Base.{
  ◌≡◌, refl, sym, ap, ◌∙◌, inl, inr, Bool, true, false, if◌then◌else◌, Option, none, some, [], ◌∷◌,
  ◌++◌, map, arith, Bool-cases, Option-cases,
}
use tateyama.Base.Text.{Str, str_eq, eq_of_str_eq}
use tateyama.Session.Variables.{
  Variable, VariableSet, find, insert, insert_all, DeclarationSet, find_declaration,
  make_variable_set,
}

abbrev or_find : Option Variable → Option Variable → Option Variable
or_find none b = b
or_find (some v) b = some v

find-append : (n : Str) (vs ws : VariableSet) → find n (vs ++ ws) ≡ or_find (find n vs) (find n ws)
unfolding find
find-append n [] ws = refl
find-append n (v ∷ vs) ws = ground (arith, find-append n vs ws)

or_find-none : (a : Option Variable) → or_find a none ≡ a
or_find-none none = refl
or_find-none (some v) = refl

or_find-twice :
    (a : Option Variable) (b : Bool) (v : Variable) (c : Option Variable)
    → or_find (or_find a (if b then some v else none)) c ≡ or_find a (if b then some v else c)
or_find-twice none true v c = refl
or_find-twice none false v c = refl
or_find-twice (some w) true v c = refl
or_find-twice (some w) false v c = refl

-- An insertion leaves a variable that is there, also of the same name.
find-insert :
    (n : Str) (vs : VariableSet) (v : Variable)
    → find n (insert vs v) ≡ or_find (find n vs) (if str_eq v.name n then some v else none)
unfolding insert find
find-insert n vs v = elim (Option-cases (find v.name vs)) [
  | inl e ↦ rw e (find-append n vs (v ∷ []))
  | inr (w, e) ↦ elim (Bool-cases (str_eq v.name n)) [
    | inl t ↦
        (let same : v.name ≡ n = eq_of_str_eq v.name n t in
          let found : find n vs ≡ some w = rw same at e in rw (e, found) refl)
    | inr t ↦ rw (e, t) (sym (or_find-none (find n vs)))
  ]
]

find-insert_all :
    (n : Str) (vs ds : VariableSet) → find n (insert_all vs ds) ≡ or_find (find n vs) (find n ds)
unfolding insert_all find
find-insert_all n vs [] = sym (or_find-none (find n vs))
find-insert_all n vs (d ∷ ds) =
    find-insert_all n (insert vs d) ds
    ∙ ap (λ (a : Option Variable). or_find a (find n ds)) (find-insert n vs d)
    ∙ or_find-twice (find n vs) (str_eq d.name n) d (find n ds)

find-declared :
    (ds : DeclarationSet) (n : Str)
    → find n (map (λ d. d.variable) ds) ≡ Option.map (λ d. d.variable) (find_declaration ds n)
unfolding find find_declaration
find-declared [] n = refl
find-declared (d ∷ ds) n = ground (arith, find-declared ds n)

-- The variable of a new session for a name is that of the first declaration of the name, with its
-- type and initial value, and there is none for a name that is not declared.
pub make_variable_set-find :
    (ds : DeclarationSet) (n : Str)
    → find n (make_variable_set ds) ≡ Option.map (λ d. d.variable) (find_declaration ds n)
unfolding make_variable_set find
make_variable_set-find ds n = find-insert_all n [] (map (λ d. d.variable) ds) ∙ find-declared ds n
