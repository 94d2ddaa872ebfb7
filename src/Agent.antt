-- ===== src/Agent.antt =====
-- The requests of the agent server, `handle_conn` of crates/bsm-encode/src/ipc.rs, one request at a
-- time: a start is modelled with its check of the limits and its insertion as one step; the source
-- releases the lock between the two, which Agent.Race models. What the paths of the standard library say of a
-- directory, what the search of an output path and the start of a session give, and the new id are
-- arguments.
pub mod Limits
pub mod Race
use baxters_stereo_mix_lin.Base.{
  ℕ, suc, ◌+◌, Bool, true, false, not, ◌||◌, Option, none, some, List, [], ◌∷◌, length, ltb, leb,
  ◌==◌, if◌then◌else◌,
}
use baxters_stereo_mix_lin.Muxer.{ContainerFormat, mp3, flac, wav}
use Prim.Native.String.{String}
use text.Mathlib.Text.{◌==◌ as ◌=~◌}

-- A session by its id and its origin.
pub record Entry : Type 0 where
  pub id : String
  pub origin : String

pub record StartRequest : Type 0 where
  pub token : Option String
  pub filename_template : List ℕ
  pub format : Option String
  pub is_absolute : Bool
  pub has_parent : Bool

pub data Refusal : Type 0 where
  authentication_failed : Refusal
  invalid_template : Refusal
  not_relative : Refusal
  parent_traversal : Refusal
  no_path : Refusal
  too_many_sessions : Refusal
  start_failed : Refusal
  id_not_found : Refusal

pub data Reply : Type 0 where
  refused : Refusal → Reply
  started : String → ContainerFormat → Reply
  stopped : Reply
  active : Bool → Reply
  sessions : List String → Reply

-- `BSM_API_TOKEN`, if it is set, must be the token of the request.
unfoldable pub authentic : Option String → Option String → Bool
authentic none token = true
authentic (some expected) none = false
authentic (some expected) (some token) = token =~ expected

unfoldable pub contains : ℕ → List ℕ → Bool
contains c [] = false
contains c (x ∷ rest) = (x == c) || contains c rest

-- A length above 128, a slash or a backslash.
unfoldable pub bad_template : List ℕ → Bool
bad_template t = ltb 128 (length t) || (contains 0x2F t || contains 0x5C t)

unfoldable pub format_of : Option String → ContainerFormat
format_of none = wav
format_of (some f) =
    if f =~ "wav" then wav else if f =~ "mp3" then mp3 else if f =~ "flac" then flac else wav

-- `map.values().filter(|rs| rs.origin == origin).count()`
unfoldable pub per_origin : String → List Entry → ℕ
per_origin origin [] = 0
per_origin origin (e ∷ rest) =
    let others = per_origin origin rest in if e.origin =~ origin then suc others else others

unfoldable pub full : String → List Entry → Bool
full origin map = leb 4 (per_origin origin map) || leb 64 (length map)

-- `HashMap::remove` and `HashMap::insert`.
unfoldable pub remove : String → List Entry → List Entry
remove id [] = []
remove id (e ∷ rest) = let others = remove id rest in if e.id =~ id then others else e ∷ others

unfoldable pub insert : Entry → List Entry → List Entry
insert e map = e ∷ remove e.id map

-- `resolves` and `starts`: whether `resolve_output_path` and `RecordingSession::start` succeed.
unfoldable pub handle_start :
    Option String → Bool → Bool → String → String → StartRequest → List Entry → List Entry × Reply
handle_start expected resolves starts origin id r map =
    if not (authentic expected r.token)
    then (map, refused authentication_failed)
    else if bad_template r.filename_template
    then (map, refused invalid_template)
    else if r.is_absolute
    then (map, refused not_relative)
    else if r.has_parent
    then (map, refused parent_traversal)
    else if not resolves
    then (map, refused no_path)
    else if full origin map
    then (map, refused too_many_sessions)
    else if not starts
    then (map, refused start_failed)
    else (insert (record { id = id; origin = origin }) map, started id (format_of r.format))

unfoldable pub has_key : String → List Entry → Bool
has_key id [] = false
has_key id (e ∷ rest) = (e.id =~ id) || has_key id rest

unfoldable pub handle_stop : String → List Entry → List Entry × Reply
handle_stop id map =
    if has_key id map then (remove id map, stopped) else (map, refused id_not_found)

unfoldable pub ids : List Entry → List String
ids [] = []
ids (e ∷ rest) = e.id ∷ ids rest

unfoldable pub handle_status : Option String → List Entry → Reply
handle_status none map = sessions (ids map)
handle_status (some id) map = active (has_key id map)
