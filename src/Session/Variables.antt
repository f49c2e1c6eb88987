-- ===== src/Session/Variables.antt =====
-- src/tateyama/session/variable_set.cpp and variable_declaration_set.cpp: session variables. The
-- `std::map` of a variable set is an association list with one entry for each name.
pub mod Assignment
pub mod Initial
use mathlib.Core.Option
use tateyama.Base.{
  ℕ, Bool, true, false, if◌then◌else◌, Option, none, some, List, [], ◌∷◌, ◌++◌, map,
}
use tateyama.Base.Text.{Str, str_eq}

pub data VariableType : Type 0 where
  boolean signed_integer unsigned_integer string : VariableType

-- `unset` is std::monostate; a signed integer is its 64-bit pattern.
pub data Value : Type 0 where
  unset : Value
  of_bool : Bool → Value
  of_signed of_unsigned : ℕ → Value
  of_string : Str → Value

pub record Variable : Type 0 where
  pub name : Str
  pub type : VariableType
  pub value : Value

abbrev pub VariableSet : Type 0
VariableSet = List Variable

unfoldable pub find : Str → VariableSet → Option Variable
find n [] = none
find n (v ∷ vs) = if str_eq v.name n then some v else find n vs

abbrev pub is_some {ℓ} : {A : Type ℓ} → Option A → Bool
is_some none = false
is_some (some a) = true

-- `std::map::insert` keeps an entry that is there.
unfoldable pub insert : VariableSet → Variable → VariableSet
insert vs v = if is_some (find v.name vs) then vs else vs ++ v ∷ []

-- the constructor, from the declarations in order
unfoldable pub insert_all : VariableSet → List Variable → VariableSet
unfolding insert
insert_all vs [] = vs
insert_all vs (d ∷ ds) = insert_all (insert vs d) ds

unfoldable pub exists : VariableSet → Str → Bool
unfolding find
exists vs n = is_some (find n vs)

unfoldable pub type_of : VariableSet → Str → Option VariableType
unfolding find
type_of vs n = Option.map (λ v. v.type) (find n vs)

unfoldable pub get : VariableSet → Str → Value
unfolding find
get vs n = elim (find n vs) [ none ↦ unset | some v ↦ v.value ]

unfoldable pub store : VariableSet → Str → Value → VariableSet
store [] n x = []
store (v ∷ vs) n x = if str_eq v.name n then record v { value = x } ∷ vs else v ∷ store vs n x

-- `set`: the answer and the set after it
unfoldable pub set : VariableSet → Str → Value → Bool × VariableSet
unfolding exists store
set vs n x = if exists vs n then (true, store vs n x) else (false, vs)

pub record Declaration : Type 0 where
  pub variable : Variable
  pub description : Str

abbrev pub DeclarationSet : Type 0
DeclarationSet = List Declaration

unfoldable pub find_declaration : DeclarationSet → Str → Option Declaration
find_declaration [] n = none
find_declaration (d ∷ ds) n = if str_eq d.variable.name n then some d else find_declaration ds n

unfoldable pub declare : DeclarationSet → Declaration → Bool × DeclarationSet
unfolding find_declaration
declare ds d =
    if is_some (find_declaration ds d.variable.name) then (false, ds) else (true, ds ++ d ∷ [])

unfoldable pub enumerate_variable_names : DeclarationSet → List Str
enumerate_variable_names ds = map (λ d. d.variable.name) ds

-- a declaration's `initial_value_` is its variable's value
unfoldable pub make_variable_set : DeclarationSet → VariableSet
unfolding insert_all
make_variable_set ds = insert_all [] (map (λ d. d.variable) ds)
