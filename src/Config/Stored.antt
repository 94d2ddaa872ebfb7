-- ===== src/Config/Stored.antt =====
-- `load_config` and `save_config` of crates/bsm-core/src/config.rs. TOML and what the file system
-- allows are parameters; a write is taken as a whole.
use baxters_stereo_mix_lin.Base.{◌≡◌, refl, Bool, true, Option, none, some, if◌then◌else◌, arith}

pub data ConfigFailure : Type 0 where
  io : ConfigFailure
  parsing : ConfigFailure
  serialization : ConfigFailure

pub data ConfigResult (A : Type 0) : Type 0 where
  ok : A → ConfigResult A
  err : ConfigFailure → ConfigResult A

-- The file of the configuration, if it exists, and what may be done.
pub record Folder (Text : Type 0) : Type 0 where
  pub file : Option Text
  pub makes_folder : Bool
  pub readable : Bool
  pub writable : Bool

module _ {Config Text : Type 0} (parse : Text → Option Config) (print : Config → Option Text)
    (default : Config) where
  unfoldable pub save_config : Folder Text → Config → Folder Text × ConfigResult (Unit {0})
  save_config f c =
      if f.makes_folder
      then elim (print c) [
        | none ↦ (f, err serialization)
        | some text ↦ if f.writable then (record f { file = some text }, ok tt) else (f, err io)
      ]
      else (f, err io)

  unfoldable pub load_config : Folder Text → Folder Text × ConfigResult Config
  load_config f = elim f.file [
    | none ↦
        let saved = save_config f default in
        elim saved.1 [ ok done ↦ (saved.0, ok default) | err e ↦ (saved.0, err e) ]
    | some text ↦
        if f.readable
        then elim (parse text) [ none ↦ (f, err parsing) | some c ↦ (f, ok c) ]
        else (f, err io)
  ]

  saved :
      (f : Folder Text) (c : Config) (text : Text)
      → print c ≡ some text
      → f.makes_folder ≡ true
      → f.writable ≡ true
      → save_config f c ≡ (record f { file = some text }, ok tt)
  unfolding save_config
  saved f c text printed makes writes = ground (arith, printed, makes, writes)

  loaded :
      (f : Folder Text) (c : Config) (text : Text)
      → f.file ≡ some text
      → parse text ≡ some c
      → f.readable ≡ true
      → load_config f ≡ (f, ok c)
  unfolding load_config
  loaded f c text present parsed reads = ground (arith, present, reads, parsed)

  -- A configuration that is printed to a text that reads back as it, and is saved with success, is
  -- what the next load gives.
  pub save-load :
      (f : Folder Text) (c : Config) (text : Text)
      → print c ≡ some text
      → parse text ≡ some c
      → f.makes_folder ≡ true
      → f.writable ≡ true
      → f.readable ≡ true
      → load_config (save_config f c).0 ≡ ((save_config f c).0, ok c)
  save-load f c text printed parsed makes writes reads =
      rw (saved f c text printed makes writes)
        (loaded (record f { file = some text }) c text refl parsed reads)

  -- Where there is no file and a folder can be made and written, the first load gives the default
  -- and leaves its text.
  pub load-default :
      (f : Folder Text) (text : Text)
      → f.file ≡ none
      → print default ≡ some text
      → f.makes_folder ≡ true
      → f.writable ≡ true
      → load_config f ≡ (record f { file = some text }, ok default)
  unfolding load_config
  load-default f text absent printed makes writes =
      ground (arith, absent, saved f default text printed makes writes)
