-- ===== src/Connections/Store/File.antt =====
-- backend/connections/store.py: the encrypted file. Fernet and `json` with pydantic are a parameter;
-- its laws are what their documentation promises: what was written can be read back.
use agent_graph_studio.Prelude.{
  if◌then◌else◌, Bool-cases, string_eq, String, ◌≡◌, refl, sym, subst, inl, inr, Bool, false,
  Option, none, some, List, [], arith,
}
use agent_graph_studio.Connections.Store.{ConnectionProfile, Change, keep, write, duplicate, after}

pub record Vault (Text : Type 0) : Type 0 where
  -- whether the file's content is empty
  pub is_blank : Text → Bool
  -- `Fernet.encrypt`, and `Fernet.decrypt`, where `none` is `InvalidToken`
  pub encrypt : Text → Text
  pub decrypt : Text → Option Text
  -- `json.dumps` of the profiles, and `json.loads` with `model_validate`, where `none` is an error
  pub dumps : List ConnectionProfile → Text
  pub loads : Text → Option (List ConnectionProfile)
  pub decrypt-encrypt : (text : Text) → decrypt (encrypt text) ≡ some text
  pub loads-dumps : (profiles : List ConnectionProfile) → loads (dumps profiles) ≡ some profiles
  pub is_blank-encrypt : (text : Text) → is_blank (encrypt text) ≡ false

-- `none` where the file does not exist.
abbrev pub StoreFile : Type 0 → Type 0
StoreFile Text = Option Text

-- The profiles and the file after reading it, or the error of a text that cannot be parsed.
pub data Loaded (Text : Type 0) : Type 0 where
  loaded : List ConnectionProfile → StoreFile Text → Loaded Text
  unreadable : StoreFile Text → Loaded Text

pub data Reply {ℓ} (A : Type ℓ) : Type ℓ where
  done : A → Reply A
  duplicate_connection : String → Reply A
  parse_error : Reply A

abbrev pub answer {ℓ} : {A : Type ℓ} → Change A → Reply A
answer (keep a) = done a
answer (write profiles a) = done a
answer (duplicate name) = duplicate_connection name

module _ {Text : Type 0} (vault : Vault Text) where
  open vault use {
    is_blank, encrypt, decrypt, dumps, loads, decrypt-encrypt, loads-dumps, is_blank-encrypt,
  }

  -- `_save_all`
  unfoldable pub save_all : List ConnectionProfile → StoreFile Text
  save_all profiles = some (encrypt (dumps profiles))

  parsed : Text → Option (List ConnectionProfile) → Loaded Text
  parsed raw none = unreadable (some raw)
  parsed raw (some profiles) = loaded profiles (some raw)

  -- a plaintext file is written back encrypted
  migrated : Text → Option (List ConnectionProfile) → Loaded Text
  unfolding save_all
  migrated raw none = unreadable (some raw)
  migrated raw (some profiles) = loaded profiles (save_all profiles)

  read_raw : Text → Option Text → Loaded Text
  unfolding parsed migrated
  read_raw raw (some decrypted) = parsed raw (loads decrypted)
  read_raw raw none = migrated raw (loads raw)

  -- `_load_all`
  unfoldable pub load_all : StoreFile Text → Loaded Text
  unfolding read_raw
  load_all none = loaded [] none
  load_all (some raw) = if is_blank raw then loaded [] (some raw) else read_raw raw (decrypt raw)

  unfoldable pub apply_change {ℓ} :
      {A : Type ℓ} → StoreFile Text → Change A → Reply A × StoreFile Text
  unfolding save_all
  apply_change file (keep a) = (done a, file)
  apply_change file (write profiles a) = (done a, save_all profiles)
  apply_change file (duplicate name) = (duplicate_connection name, file)

  unfoldable pub run_on {ℓ} :
      {A : Type ℓ} → (List ConnectionProfile → Change A) → Loaded Text → Reply A × StoreFile Text
  unfolding apply_change
  run_on op (loaded profiles file) = apply_change file (op profiles)
  run_on op (unreadable file) = (parse_error, file)

  -- Every operation of the store: read, compute, and write back what changed.
  unfoldable pub with_store {ℓ} :
      {A : Type ℓ} → (List ConnectionProfile → Change A) → StoreFile Text → Reply A × StoreFile Text
  unfolding load_all run_on
  with_store op file = run_on op (load_all file)

  -- The profiles that a file stands for.
  abbrev pub Holds : StoreFile Text → List ConnectionProfile → Type 0
  Holds file profiles = (f : StoreFile Text) × (load_all file ≡ loaded profiles f)

  load_all-save_all :
      (profiles : List ConnectionProfile)
      → load_all (save_all profiles) ≡ loaded profiles (save_all profiles)
  unfolding load_all save_all
  load_all-save_all profiles = ground (
    arith,
    is_blank-encrypt (dumps profiles),
    decrypt-encrypt (dumps profiles),
    loads-dumps profiles,
  )

  migrated-stable :
      (raw : Text) (o : Option (List ConnectionProfile)) (profiles : List ConnectionProfile)
      (file : StoreFile Text)
      → migrated raw o ≡ loaded profiles file
      → load_all file ≡ loaded profiles file
  migrated-stable raw none profiles file h = absurd (unfold migrated in ground arith)
  migrated-stable raw (some ps) profiles file h =
      let e : ps ≡ profiles = unfold migrated in ground arith in
      let f : file ≡ save_all ps = unfold migrated in ground arith in
      rw (f, e) (load_all-save_all profiles)

  parsed-stable :
      (raw : Text) (o : Option (List ConnectionProfile)) (profiles : List ConnectionProfile)
      (file : StoreFile Text)
      → parsed raw o ≡ loaded profiles file
      → file ≡ some raw
  unfolding parsed
  parsed-stable raw none profiles file h = absurd (ground arith)
  parsed-stable raw (some ps) profiles file h = ground arith

  read_raw-stable :
      (raw : Text) (o : Option Text) (profiles : List ConnectionProfile) (file : StoreFile Text)
      → decrypt raw ≡ o
      → load_all (some raw) ≡ loaded profiles file
      → read_raw raw o ≡ loaded profiles file
      → load_all file ≡ loaded profiles file
  read_raw-stable raw none profiles file e old h =
      migrated-stable raw (loads raw) profiles file (unfold read_raw in h)
  read_raw-stable raw (some d) profiles file e old h =
      let same : file ≡ some raw =
        parsed-stable raw (loads d) profiles file (unfold read_raw in h) in
      subst (λ x. load_all x ≡ loaded profiles file) (sym same) old

  -- Reading settles: whatever a file that can be read was (absent, empty, encrypted, or plaintext of an old version),
  -- the file that reading it leaves gives the same profiles and is not changed by reading again.
  pub load_all_stable :
      (file file' : StoreFile Text) (profiles : List ConnectionProfile)
      → load_all file ≡ loaded profiles file'
      → load_all file' ≡ loaded profiles file'
  load_all_stable none file' profiles h =
      let e : file' ≡ none = unfold load_all in ground arith in
      subst (λ x. load_all x ≡ loaded profiles file') (sym e) h
  load_all_stable (some raw) file' profiles h = elim (Bool-cases (is_blank raw)) [
    | inl empty ↦
        let e : file' ≡ some raw = unfold load_all in ground arith in
        subst (λ x. load_all x ≡ loaded profiles file') (sym e) h
    | inr full ↦
        read_raw-stable raw (decrypt raw) profiles file' refl h
          (unfold load_all in rw (full, load_all) at h)
  ]

  apply_change-Holds {ℓ} :
      {A : Type ℓ} (c : Change A) (file : StoreFile Text) (profiles : List ConnectionProfile)
      → load_all file ≡ loaded profiles file
      → Holds (apply_change file c).1 (after profiles c) × ((apply_change file c).0 ≡ answer c)
  unfolding apply_change
  apply_change-Holds (keep a) file profiles h = ((file, h), refl)
  apply_change-Holds (write ps a) file profiles h = ((save_all ps, load_all-save_all ps), refl)
  apply_change-Holds (duplicate name) file profiles h = ((file, h), refl)

  -- An operation on a readable file answers as it does on the profiles of the file, and leaves a file
  -- that holds the profiles after it.
  pub with_store-Holds {ℓ} :
      {A : Type ℓ} (op : List ConnectionProfile → Change A) (file : StoreFile Text)
      (profiles : List ConnectionProfile)
      → Holds file profiles
      → Holds (with_store op file).1 (after profiles (op profiles))
        × ((with_store op file).0 ≡ answer (op profiles))
  unfolding with_store run_on
  with_store-Holds op file profiles (f, h) =
      rw h (apply_change-Holds (op profiles) f profiles (load_all_stable file f profiles h))
