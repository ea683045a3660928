-- ===== src/Artifacts.antt =====
-- auto_workflow/artifacts.py: the two artifact stores. uuid4 and the serialisers, which are Python's
-- own, are arguments.
use auto_workflow.Base.{
  ◌≡◌, none, some, [], ◌++◌, if◌then◌else◌, Str, ◌==◌, codes, Dict, lookup, insert, lookup-insert,
  arith,
}
use auto_workflow.Exceptions.{key_error, Result, ok, raise}

-- `ArtifactRef`
pub record ArtifactRef : Type 0 where
  pub key : Str

-- A serialiser: the bytes of a value, and the value of bytes.
pub record Serializer {ℓ} (V : Type ℓ) : Type ℓ where
  pub dumps : V → Result Str
  pub loads : Str → Result V

module _ {ℓ} {V : Type ℓ} where
  -- `InMemoryArtifactStore.put`, with the key that uuid4 gave.
  unfoldable pub put_memory : Str → V → Dict V → ArtifactRef × Dict V
  put_memory uuid value store = (record { key = uuid }, insert uuid value store)

  -- `InMemoryArtifactStore.get`
  unfoldable pub get_memory : ArtifactRef → Dict V → Result V
  get_memory ref store = elim (lookup ref.key store) [
    | none ↦ raise (key_error ref.key)
    | some v ↦ ok v
  ]

  -- `FileSystemArtifactStore.put`: opening the file for writing empties it, also where the
  -- serialiser raises then.
  unfoldable pub put_file : Serializer V → Str → V → Dict Str → Result ArtifactRef × Dict Str
  put_file ser uuid value files = elim (ser.dumps value) [
    | ok bytes ↦ (ok (record { key = uuid }), insert uuid bytes files)
    | raise e ↦ (raise e, insert uuid [] files)
  ]

  -- `FileSystemArtifactStore.get`
  unfoldable pub get_file : Serializer V → ArtifactRef → Dict Str → Result V
  get_file ser ref files = elim (lookup ref.key files) [
    | none ↦ raise (key_error (codes "Artifact not found: " ++ ref.key))
    | some bytes ↦ ser.loads bytes
  ]

  -- In memory, what is put is read back by its reference, and references with other keys read what
  -- they read before.
  pub get_memory-put_memory :
      (uuid : Str) (v : V) (store : Dict V) (ref : ArtifactRef)
      → get_memory ref (put_memory uuid v store).1
        ≡ (if ref.key == uuid then ok v else get_memory ref store)
  unfolding get_memory put_memory
  get_memory-put_memory uuid v store ref = ground (arith, lookup-insert ref.key uuid v store)

  -- On files, where the serialiser writes a value as bytes that it reads back as that value, the
  -- reference that put returns reads the value, and references with other keys read what they read
  -- before.
  pub get_file-put_file :
      (ser : Serializer V) (uuid : Str) (v : V) (bytes : Str) (files : Dict Str)
      → ser.dumps v ≡ ok bytes
      → ser.loads bytes ≡ ok v
      → ((put_file ser uuid v files).0 ≡ ok (record { key = uuid }))
        × ((ref : ArtifactRef)
            → get_file ser ref (put_file ser uuid v files).1
              ≡ (if ref.key == uuid then ok v else get_file ser ref files))
  unfolding get_file put_file
  get_file-put_file ser uuid v bytes files w r =
      (ground arith, λ ref. ground (arith, lookup-insert ref.key uuid bytes files))
