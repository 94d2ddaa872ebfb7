-- ===== src/Instance.antt =====
-- crates/bsm-core/src/instance.rs: the table of instances, and the lock file that keeps a second
-- program from starting. The print of an id and what the file system answers are arguments.
use baxters_stereo_mix_lin.Base.{
  ℕ, ◌≡◌, refl, ap, Bool, true, false, Bool-cases, Option-cases, inl, inr, Option, none, some, List,
  [], ◌∷◌, if◌then◌else◌,
}
use Prim.Native.String.{String}
use text.Mathlib.Text.{◌==◌ as ◌=~◌}
use text.Mathlib.TextEquality.{eq_iff}

pub data InstanceState : Type 0 where
  created : InstanceState
  running : InstanceState
  stopped : InstanceState

pub record Instance : Type 0 where
  pub id : String
  pub name : Option String
  pub created_at : ℕ
  pub state : InstanceState

pub data InstanceResult (A : Type 0) : Type 0 where
  ok : A → InstanceResult A
  poisoned : InstanceResult A
  not_found : InstanceResult A

-- The mutex of the table, and whether it is poisoned.
pub record InstanceManager : Type 0 where
  pub inner : List Instance
  pub is_poisoned : Bool

unfoldable pub new : InstanceManager
new = record { inner = []; is_poisoned = false }

-- `now` and `later` are the two readings of the clock.
unfoldable pub new_instance : (ℕ → String) → ℕ → ℕ → Option String → Instance
new_instance id_text now later name = record {
  id = id_text now;
  name = name;
  created_at = later;
  state = created;
}

unfoldable pub remove : String → List Instance → List Instance
remove id [] = []
remove id (x ∷ rest) = let others = remove id rest in if x.id =~ id then others else x ∷ others

unfoldable pub find : String → List Instance → Option Instance
find id [] = none
find id (x ∷ rest) = let later = find id rest in if x.id =~ id then some x else later

unfoldable pub create : InstanceManager → Instance → InstanceManager × InstanceResult String
create m x =
    if m.is_poisoned then (m, poisoned) else (record m { inner = x ∷ remove x.id m.inner }, ok x.id)

unfoldable pub get : InstanceManager → String → InstanceResult (Option Instance)
get m id = if m.is_poisoned then poisoned else ok (find id m.inner)

unfoldable pub list : InstanceManager → InstanceResult (List Instance)
list m = if m.is_poisoned then poisoned else ok m.inner

unfoldable pub destroy : InstanceManager → String → InstanceManager × InstanceResult (Unit {0})
destroy m id = if m.is_poisoned then (m, poisoned) else (elim (find id m.inner) [
  | some x ↦ (record m { inner = remove id m.inner }, ok tt)
  | none ↦ (m, not_found)
])

-- `SingleInstanceGuard`: whether the lock file is there, and whether the system lets it be made.
pub data Acquired : Type 0 where
  acquired : Acquired
  already_running : Acquired
  system_error : Acquired

unfoldable pub acquire : Bool → Bool → Bool × Acquired
acquire true can = (true, already_running)
acquire false true = (true, acquired)
acquire false false = (false, system_error)

-- `drop`: the removal may fail, and that is ignored.
unfoldable pub release : Bool → Bool → Bool
release locked removes = if removes then false else locked

find-remove : (id : String) (m : List Instance) → find id (remove id m) ≡ none
unfolding find remove
find-remove id [] = refl
find-remove id (x ∷ rest) = elim (Bool-cases (x.id =~ id)) [
  | inl same ↦ rw (remove, same) (find-remove id rest)
  | inr other ↦ rw (remove, other, find, other) (find-remove id rest)
]

-- An instance that was created is found under its id, whatever was there before.
pub create-get :
    (m : InstanceManager) (x : Instance)
    → m.is_poisoned ≡ false
    → get (create m x).0 x.id ≡ ok (some x)
unfolding create get find
create-get m x sound = rw (create, sound, get, find, (eq_iff x.id x.id).1 refl) refl

-- An instance that was destroyed is not found again.
pub destroy-get :
    (m : InstanceManager) (id : String) → m.is_poisoned ≡ false → get (destroy m id).0 id ≡ ok none
unfolding destroy get
destroy-get m id sound = elim (Option-cases (find id m.inner)) [
  | inl absent ↦ rw (destroy, sound, absent, get, sound, absent) refl
  | inr (x, known) ↦ rw (destroy, sound, known, get, sound) (ap ok (find-remove id m.inner))
]
