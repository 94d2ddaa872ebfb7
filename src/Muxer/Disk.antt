-- ===== src/Muxer/Disk.antt =====
-- What the container writers use of the standard library's files: `File`, `BufWriter`, `seek`,
-- `read_exact` and `write_all`. The operations are a parameter, with their documented behaviour
-- where they succeed; each may fail.
pub mod Memory
use baxters_stereo_mix_lin.Base.{
  ℕ, ◌+◌, ◌≡◌, Bool, true, false, Option, none, some, List, [], ◌∷◌, ◌++◌, length, take, drop,
  overwrite, if◌then◌else◌,
}

-- A `Writer` is a `BufWriter` over a file just created; `true` stands for `Ok(())`.
pub record Disk : Type 1 where
  pub Place : Type 0
  pub Writer : Type 0
  pub File : Type 0
  pub view : Writer → List ℕ
  pub on_disk : Writer → List ℕ
  pub content : File → List ℕ
  pub position : File → ℕ
  pub create : Place → Option Writer
  pub write_all : Writer → List ℕ → Writer × Bool
  pub flush : Writer → Writer × Bool
  pub into_inner : Writer → Option File
  pub seek : File → ℕ → File × Bool
  pub write_file : File → List ℕ → File × Bool
  pub read_exact : File → ℕ → File × Option (List ℕ)

-- `view` is all that was written, `on_disk` what the file holds: the two agree once the writer was
-- flushed.
pub record IsDisk (d : Disk) : Type 0 where
  pub create_view : (p : d.Place) (w : d.Writer) → d.create p ≡ some w → d.view w ≡ []
  pub write_all_view :
      (w : d.Writer) (bs : List ℕ)
      → (d.write_all w bs).1 ≡ true
      → d.view (d.write_all w bs).0 ≡ d.view w ++ bs
  pub flush_view : (w : d.Writer) → (d.flush w).1 ≡ true → d.view (d.flush w).0 ≡ d.view w
  pub flush_on_disk : (w : d.Writer) → (d.flush w).1 ≡ true → d.on_disk (d.flush w).0 ≡ d.view w
  pub into_inner_content :
      (w : d.Writer) (f : d.File) → d.into_inner w ≡ some f → d.content f ≡ d.view w
  pub seek_content :
      (f : d.File) (at : ℕ) → (d.seek f at).1 ≡ true → d.content (d.seek f at).0 ≡ d.content f
  pub seek_position :
      (f : d.File) (at : ℕ) → (d.seek f at).1 ≡ true → d.position (d.seek f at).0 ≡ at
  pub write_file_content :
      (f : d.File) (bs : List ℕ)
      → (d.write_file f bs).1 ≡ true
      → d.content (d.write_file f bs).0 ≡ overwrite (d.position f) bs (d.content f)
  pub read_exact_bytes :
      (f : d.File) (n : ℕ) (bs : List ℕ)
      → (d.read_exact f n).1 ≡ some bs
      → (bs ≡ take n (drop (d.position f) (d.content f))) × (length bs ≡ n)
  pub read_exact_content :
      (f : d.File) (n : ℕ) (bs : List ℕ)
      → (d.read_exact f n).1 ≡ some bs
      → d.content (d.read_exact f n).0 ≡ d.content f

-- The `write_all` calls of a header one after another, up to the first that fails.
unfoldable pub write_each : (d : Disk) → d.Writer → List (List ℕ) → d.Writer × Bool
write_each d w [] = (w, true)
write_each d w (bs ∷ rest) =
    let tried = d.write_all w bs in
    let more = write_each d tried.0 rest in if tried.1 then more else (tried.0, false)
