-- ===== src/Muxer/Disk/Memory.antt =====
-- A disk in memory whose operations never fail: the laws of a disk can hold.
use baxters_stereo_mix_lin.Base.{
  ℕ, ◌+◌, ◌≡◌, refl, true, none, some, List, [], ◌++◌, length, take, drop, overwrite, leb,
  if◌then◌else◌, sym, ap, ◌∙◌, length-take, Bool-cases, inl, inr, arith, leb→le,
}
use mathlib.Core.Option.{some-injective, some-ne-none}
use baxters_stereo_mix_lin.Muxer.Disk.{Disk, IsDisk}

abbrev pub memory : Disk
memory = record {
  Place = Unit {0};
  Writer = List ℕ;
  File = List ℕ × ℕ;
  view = λ w. w;
  on_disk = λ w. w;
  content = λ f. f.0;
  position = λ f. f.1;
  create = λ p. some [];
  write_all = λ w bs. (w ++ bs, true);
  flush = λ w. (w, true);
  into_inner = λ w. some (w, length w);
  seek = λ f at. ((f.0, at), true);
  write_file = λ f bs. ((overwrite f.1 bs f.0, f.1 + length bs), true);
  read_exact = λ f n.
      let bs = take n (drop f.1 f.0) in
      if leb n (length bs) then ((f.0, f.1 + n), some bs) else (f, none);
}

enough :
    (f : List ℕ × ℕ) (n : ℕ) (bs : List ℕ)
    → (memory.read_exact f n).1 ≡ some bs
    → (bs ≡ take n (drop f.1 f.0)) × (length bs ≡ n)
enough f n bs h = elim (Bool-cases (leb n (length (take n (drop f.1 f.0))))) [
  | inl long ↦
      let same = sym (some-injective _ _ (rw long at h)) in
      (same, ap length same ∙ omega (arith, length-take n (drop f.1 f.0), leb→le n _ long))
  | inr short ↦ absurd (some-ne-none bs (sym (rw short at h)))
]

kept : (f : List ℕ × ℕ) (n : ℕ) → (memory.read_exact f n).0.0 ≡ f.0
kept f n = elim (Bool-cases (leb n (length (take n (drop f.1 f.0))))) [
  | inl long ↦ rw long refl
  | inr short ↦ rw short refl
]

pub memory-IsDisk : IsDisk memory
memory-IsDisk = record {
  create_view = λ p w e. sym (some-injective _ _ e);
  write_all_view = λ w bs h. refl;
  flush_view = λ w h. refl;
  flush_on_disk = λ w h. refl;
  into_inner_content = λ w f e. ap (λ t. t.0) (sym (some-injective _ _ e));
  seek_content = λ f at h. refl;
  seek_position = λ f at h. refl;
  write_file_content = λ f bs h. refl;
  read_exact_bytes = enough;
  read_exact_content = λ f n bs h. kept f n;
}
