-- ===== src/Agent/Race.antt =====
-- Start requests that overlap: `handle_conn` of crates/bsm-encode/src/ipc.rs releases the lock on the
-- sessions between the check of the limits and the insertion.
pub mod Overrun
use baxters_stereo_mix_lin.Base.{
  ℕ, suc, ◌+◌, ◌≤◌, ◌<◌, ◌≡◌, refl, sym, ap, ◌∙◌, Bool, true, false, ◌||◌, Bool-cases, inl, inr,
  List, [], ◌∷◌, length, leb, if◌then◌else◌, arith,
}
use baxters_stereo_mix_lin.Agent.{Entry, per_origin, full, remove, insert, has_key}
use baxters_stereo_mix_lin.Agent.Limits.{remove-le, remove-per_origin}
use Prim.Native.String.{String}
use text.Mathlib.Text.{◌==◌ as ◌=~◌}
use text.Mathlib.TextEquality.{eq_iff}

-- The sessions, and the starts between their check and their insertion.
pub record Table : Type 0 where
  pub map : List Entry
  pub starting : List Entry

-- One start taken out of those in progress.
pub data Taken : Entry → List Entry → List Entry → Type 0 where
  first : (e : Entry) (s : List Entry) → Taken e (e ∷ s) s
  later : (e x : Entry) (s s' : List Entry) → Taken e s s' → Taken e (x ∷ s) (x ∷ s')

-- The moves, with at most `k` starts in progress at once: a check that passes, an insertion in any
-- order, a start that fails, and the removal by a stop.
pub data Step (k : ℕ) : Table → Table → Type 0 where
  admit :
      (e : Entry) (map starting : List Entry)
      → full e.origin map ≡ false
      → length starting < k
      → Step k
          (record { map = map; starting = starting })
          (record { map = map; starting = e ∷ starting })
  register :
      (e : Entry) (map starting rest : List Entry)
      → Taken e starting rest
      → Step k
          (record { map = map; starting = starting })
          (record { map = insert e map; starting = rest })
  give_up :
      (e : Entry) (map starting rest : List Entry)
      → Taken e starting rest
      → Step k (record { map = map; starting = starting }) (record { map = map; starting = rest })
  end :
      (id : String) (map starting : List Entry)
      → Step k
          (record { map = map; starting = starting })
          (record { map = remove id map; starting = starting })

pub data Steps (k : ℕ) : Table → Table → Type 0 where
  here : (t : Table) → Steps k t t
  then_step : {t u v : Table} → Steps k t u → Step k u v → Steps k t v

abbrev pub no_sessions : Table
no_sessions = record { map = []; starting = [] }

Taken-length : (e : Entry) (s s' : List Entry) → Taken e s s' → length s ≡ suc (length s')
Taken-length e _ _ (first _ s) = refl
Taken-length e _ _ (later _ x s s' t) = ap suc (Taken-length e s s' t)

Taken-per_origin :
    (origin : String) (e : Entry) (s s' : List Entry)
    → Taken e s s'
    → per_origin origin s ≡ per_origin origin (e ∷ s')
unfolding per_origin
Taken-per_origin origin e _ _ (first _ s) = refl
Taken-per_origin origin e _ _ (later _ x s s' t) = ground (arith, Taken-per_origin origin e s s' t)

per_origin-le : (origin : String) (s : List Entry) → per_origin origin s ≤ length s
unfolding per_origin
per_origin-le origin [] = omega arith
per_origin-le origin (e ∷ s) = ground (arith, per_origin-le origin s)

-- The sessions and the starts in progress together.
pub record IsBounded (k : ℕ) (t : Table) : Type 0 where
  pub in_progress : length t.starting ≤ k
  pub in_all : length t.map + length t.starting ≤ 63 + k
  pub of_origin : (origin : String) → per_origin origin t.map + per_origin origin t.starting ≤ 3 + k

admit-all :
    (origin : String) (k : ℕ) (map starting : List Entry)
    → full origin map ≡ false
    → length starting < k
    → length map + suc (length starting) ≤ 63 + k
unfolding full
admit-all origin k map starting room few = ground (arith, room, few)

room-per_origin :
    (o origin : String) (map : List Entry)
    → o ≡ origin
    → full o map ≡ false
    → per_origin origin map ≤ 3
unfolding full
room-per_origin o origin map same room = rw (← same) (ground (arith, room))

admit-origin :
    (origin : String) (k : ℕ) (e : Entry) (map starting : List Entry)
    → full e.origin map ≡ false
    → length starting < k
    → per_origin origin map + per_origin origin starting ≤ 3 + k
    → per_origin origin map + per_origin origin (e ∷ starting) ≤ 3 + k
unfolding per_origin
admit-origin origin k e map starting room few h = elim (Bool-cases (e.origin =~ origin)) [
  | inr other ↦ rw other h
  | inl same ↦ omega (
    arith,
    room-per_origin e.origin origin map ((eq_iff e.origin origin).0 same) room,
    few,
    per_origin-le origin (e ∷ starting),
  )
]

register-origin :
    (origin : String) (k : ℕ) (e : Entry) (map starting rest : List Entry)
    → Taken e starting rest
    → per_origin origin map + per_origin origin starting ≤ 3 + k
    → per_origin origin (insert e map) + per_origin origin rest ≤ 3 + k
unfolding insert per_origin
register-origin origin k e map starting rest taken h =
    ground
      (arith, h, Taken-per_origin origin e starting rest taken, remove-per_origin e.id origin map)

Taken-rest :
    (origin : String) (e : Entry) (s s' : List Entry)
    → Taken e s s'
    → per_origin origin s' ≤ per_origin origin s
unfolding per_origin
Taken-rest origin e s s' t = ground (arith, Taken-per_origin origin e s s' t)

Step-IsBounded : (k : ℕ) (t u : Table) → Step k t u → IsBounded k t → IsBounded k u
unfolding insert
Step-IsBounded k _ _ (admit e map starting room few) h = record {
  in_progress = few;
  in_all = admit-all e.origin k map starting room few;
  of_origin = λ origin. admit-origin origin k e map starting room few (h.of_origin origin);
}
Step-IsBounded k _ _ (register e map starting rest taken) h = record {
  in_progress = omega (arith, h.in_progress, Taken-length e starting rest taken);
  in_all = omega (arith, h.in_all, Taken-length e starting rest taken, remove-le e.id map);
  of_origin = λ origin. register-origin origin k e map starting rest taken (h.of_origin origin);
}
Step-IsBounded k _ _ (give_up e map starting rest taken) h = record {
  in_progress = omega (arith, h.in_progress, Taken-length e starting rest taken);
  in_all = omega (arith, h.in_all, Taken-length e starting rest taken);
  of_origin = λ origin. omega (arith, h.of_origin origin, Taken-rest origin e starting rest taken);
}
Step-IsBounded k _ _ (end id map starting) h = record {
  in_progress = h.in_progress;
  in_all = omega (arith, h.in_all, remove-le id map);
  of_origin = λ origin. omega (arith, h.of_origin origin, remove-per_origin id origin map);
}

IsBounded-Steps : (k : ℕ) (t u : Table) → Steps k t u → IsBounded k t → IsBounded k u
IsBounded-Steps k _ _ (here t) h = h
IsBounded-Steps k _ _ (then_step before last) h =
    Step-IsBounded k _ _ last (IsBounded-Steps k _ _ before h)

no_sessions-IsBounded : (k : ℕ) → IsBounded k no_sessions
unfolding per_origin
no_sessions-IsBounded k = record {
  in_progress = omega arith;
  in_all = omega arith;
  of_origin = λ origin. omega arith;
}

-- From no sessions, with at most `k` starts between their check and their insertion at any time and
-- in every order of the moves, there are never more than 63 + k sessions, nor more than 3 + k of one
-- origin.
pub Steps-IsBounded :
    (k : ℕ) (t : Table) (origin : String)
    → Steps k no_sessions t
    → (length t.map ≤ 63 + k) × (per_origin origin t.map ≤ 3 + k)
Steps-IsBounded k t origin run =
    let h = IsBounded-Steps k no_sessions t run (no_sessions-IsBounded k) in
    (omega (arith, h.in_all), omega (arith, h.of_origin origin))
