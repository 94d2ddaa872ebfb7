-- ===== src/Agent/Race/Overrun.antt =====
-- The limits are not kept when starts overlap: `handle_conn` of crates/bsm-encode/src/ipc.rs.
use baxters_stereo_mix_lin.Base.{
  ℕ, ◌+◌, ◌≤◌, ◌≡◌, refl, ap, Bool, true, false, not, ◌&&◌, Bool-cases, inl, inr, List, [], ◌∷◌,
  length, arith,
}
use baxters_stereo_mix_lin.Agent.{Entry, per_origin, full, remove, insert, has_key}
use baxters_stereo_mix_lin.Agent.Race.{
  Table, first, Step, admit, register, Steps, here, then_step, no_sessions,
}
use Prim.Native.String.{String}

-- The sessions after the insertion of one start after the other.
unfoldable pub inserted : List Entry → List Entry → List Entry
inserted [] map = map
inserted (e ∷ es) map = inserted es (insert e map)

-- No id is in the table when its turn comes.
unfoldable pub fresh : List Entry → List Entry → Bool
fresh [] map = true
fresh (e ∷ es) map = not (has_key e.id map) && fresh es (insert e map)

prepend : {k : ℕ} {t u v : Table} → Step k t u → Steps k u v → Steps k t v
prepend s (here _) = then_step (here _) s
prepend s (then_step before last) = then_step (prepend s before) last

join : {k : ℕ} {t u v : Table} → Steps k t u → Steps k u v → Steps k t v
join run (here _) = run
join run (then_step before last) = then_step (join run before) last

full-nil : (origin : String) → full origin [] ≡ false
unfolding full per_origin
full-nil origin = refl

-- Every start passes its check before the first is inserted.
all_admitted :
    (k : ℕ) (es : List Entry)
    → length es ≤ k
    → Steps k no_sessions (record { map = []; starting = es })
all_admitted k [] h = here _
all_admitted k (e ∷ es) h =
    then_step (all_admitted k es (omega (arith, h)))
      (admit e [] es (full-nil e.origin) (omega (arith, h)))

all_registered :
    (k : ℕ) (es map : List Entry)
    → Steps k
        (record { map = map; starting = es })
        (record { map = inserted es map; starting = [] })
unfolding inserted
all_registered k [] map = here _
all_registered k (e ∷ es) map =
    prepend (register e map (e ∷ es) es (first e es)) (all_registered k es (insert e map))

remove-absent : (id : String) (map : List Entry) → has_key id map ≡ false → remove id map ≡ map
unfolding remove has_key
remove-absent id [] h = refl
remove-absent id (e ∷ rest) h = ground (arith, h, remove-absent id rest)

inserted-length :
    (es map : List Entry) → fresh es map ≡ true → length (inserted es map) ≡ length es + length map
unfolding inserted fresh insert
inserted-length [] map h = omega arith
inserted-length (e ∷ es) map h = elim (Bool-cases (has_key e.id map)) [
  | inl known ↦ absurd (ground (arith, h, known))
  | inr new ↦ omega (
    arith,
    inserted-length es (insert e map) (ground (arith, h, new)),
    ap length (remove-absent e.id map new),
  )
]

inserted-per_origin :
    (origin : String) (es map : List Entry)
    → fresh es map ≡ true
    → per_origin origin (inserted es map) ≡ per_origin origin es + per_origin origin map
unfolding inserted fresh insert per_origin
inserted-per_origin origin [] map h = omega arith
inserted-per_origin origin (e ∷ es) map h = elim (Bool-cases (has_key e.id map)) [
  | inl known ↦ absurd (ground (arith, h, known))
  | inr new ↦ ground (
    arith,
    inserted-per_origin origin es (insert e map) (ground (arith, h, new)),
    ap (per_origin origin) (remove-absent e.id map new),
  )
]

-- Where `k` starts may overlap, every list of at most `k` starts with new ids can all become
-- sessions, whatever their number and their origins: the limits hold for each of them when it is
-- checked, and the table holds them all in the end.
pub overrun :
    (k : ℕ) (origin : String) (es : List Entry)
    → length es ≤ k
    → fresh es [] ≡ true
    → (t : Table) × Steps k no_sessions t
      × (length t.map ≡ length es)
      × (per_origin origin t.map ≡ per_origin origin es)
unfolding per_origin
overrun k origin es h new = (
  record { map = inserted es []; starting = [] },
  join (all_admitted k es h) (all_registered k es []),
  omega (arith, inserted-length es [] new),
  omega (arith, inserted-per_origin origin es [] new),
)
