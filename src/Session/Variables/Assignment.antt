-- ===== src/Session/Variables/Assignment.antt =====
-- What setting a session variable and declaring one do.
use tateyama.Base.{◌≡◌, refl, true, false, [], ◌∷◌, arith}
use tateyama.Base.Text.{Str, str_eq, eq_of_str_eq}
use tateyama.Session.Variables.{Value, VariableSet, find, exists, type_of, get, store, set}

pub exists-store :
    (vs : VariableSet) (n m : Str) (x : Value) → exists (store vs n x) m ≡ exists vs m
unfolding exists find store
exists-store [] n m x = refl
exists-store (v ∷ vs) n m x = ground (arith, exists-store vs n m x)

pub get-store :
    (vs : VariableSet) (n : Str) (x : Value) → exists vs n ≡ true → get (store vs n x) n ≡ x
unfolding exists get find store
get-store [] n x h = ground (arith, h)
get-store (v ∷ vs) n x h = ground (arith, get-store vs n x)

pub type_of-store :
    (vs : VariableSet) (n m : Str) (x : Value) → type_of (store vs n x) m ≡ type_of vs m
unfolding type_of find store
type_of-store [] n m x = refl
type_of-store (v ∷ vs) n m x = ground (arith, type_of-store vs n m x)

get-store_other :
    (vs : VariableSet) (n m : Str) (x : Value)
    → str_eq n m ≡ false
    → get (store vs n x) m ≡ get vs m
unfolding get find store
get-store_other [] n m x h = refl
get-store_other (v ∷ vs) n m x h = ground (arith, get-store_other vs n m x h, eq_of_str_eq v.name n)

-- Setting a variable succeeds exactly for a declared name. Then its value is the new one, its type
-- is the old one, and every other variable is as it was; otherwise the set is as it was.
pub set_lem :
    (vs : VariableSet) (n : Str) (x : Value)
    → let (accepted, vs') = set vs n x in
      (accepted ≡ exists vs n)
      × (accepted ≡ true → get vs' n ≡ x)
      × (accepted ≡ false → vs' ≡ vs)
      × ((m : Str) → type_of vs' m ≡ type_of vs m)
      × ((m : Str) → str_eq n m ≡ false → get vs' m ≡ get vs m)
unfolding set
set_lem vs n x = ground (
  arith,
  get-store vs n x,
  λ (m : Str). type_of-store vs n m x,
  λ (m : Str) (h : str_eq n m ≡ false). get-store_other vs n m x h,
)
