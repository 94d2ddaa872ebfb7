-- ===== src/Agent/Limits.antt =====
-- The limits on the sessions.
use baxters_stereo_mix_lin.Base.{
  ◌≤◌, ◌≡◌, refl, Bool, true, false, not, Option, List, [], ◌∷◌, length, arith, if◌then◌else◌,
}
use baxters_stereo_mix_lin.Agent.{
  Entry, StartRequest, Reply, per_origin, full, remove, insert, handle_start, authentic,
  bad_template,
}
use Prim.Native.String.{String}

pub remove-le : (id : String) (map : List Entry) → length (remove id map) ≤ length map
unfolding remove
remove-le id [] = omega arith
remove-le id (e ∷ rest) = ground (arith, remove-le id rest)

pub remove-per_origin :
    (id origin : String) (map : List Entry)
    → per_origin origin (remove id map) ≤ per_origin origin map
unfolding remove per_origin
remove-per_origin id origin [] = omega arith
remove-per_origin id origin (e ∷ rest) = ground (arith, remove-per_origin id origin rest)

abbrev pub WithinLimits : String → List Entry → Type 0
WithinLimits origin map = (length map ≤ 64) × (per_origin origin map ≤ 4)

insert-WithinLimits :
    (id origin : String) (map : List Entry)
    → full origin map ≡ false
    → WithinLimits origin (insert (record { id = id; origin = origin }) map)
unfolding insert per_origin full
insert-WithinLimits id origin map h =
    (ground (arith, h, remove-le id map), ground (arith, h, remove-per_origin id origin map))

-- The limits hold of what is answered.
unfoldable Kept : String → List Entry × Reply → Type 0
Kept origin x = WithinLimits origin x.0

keep :
    (origin : String) (map : List Entry) (reply : Reply)
    → WithinLimits origin map
    → Kept origin (map, reply)
unfolding Kept
keep origin map reply h = h

either :
    (origin : String) (b : Bool) (x y : List Entry × Reply)
    → Kept origin x
    → (b ≡ false → Kept origin y)
    → Kept origin (if b then x else y)
either origin true x y p q = p
either origin false x y p q = q refl

start-Kept :
    (expected : Option String) (resolves starts : Bool) (origin id : String) (r : StartRequest)
    (map : List Entry)
    → WithinLimits origin map
    → Kept origin (handle_start expected resolves starts origin id r map)
unfolding handle_start
start-Kept expected resolves starts origin id r map h =
    either origin (not (authentic expected r.token)) _ _ (keep origin map _ h) (λ authenticated.
      either origin (bad_template r.filename_template) _ _ (keep origin map _ h) (λ safe.
        either origin r.is_absolute _ _ (keep origin map _ h) (λ relative.
          either origin r.has_parent _ _ (keep origin map _ h) (λ inside.
            either origin (not resolves) _ _ (keep origin map _ h) (λ found.
              either origin (full origin map) _ _ (keep origin map _ h) (λ room.
                either origin (not starts) _ _ (keep origin map _ h)
                  (λ running. keep origin _ _ (insert-WithinLimits id origin map room))))))))

-- A start request answered alone leaves at most 64 sessions, and at most 4 of its origin, where
-- these limits held before.
pub handle_start-WithinLimits :
    (expected : Option String) (resolves starts : Bool) (origin id : String) (r : StartRequest)
    (map : List Entry)
    → WithinLimits origin map
    → WithinLimits origin (handle_start expected resolves starts origin id r map).0
unfolding Kept
handle_start-WithinLimits = start-Kept
