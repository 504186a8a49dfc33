-- ===== src/Executor/Merge/Stream.antt =====
-- What a MERGE hands to the commit (crates/executor/src/datafusion/physical_plan/merge.rs).
use rustice.Prelude.{
  Bool, false, ◌&&◌, ◌||◌, Option, none, some, List, [], ◌∷◌, ◌++◌, Text, text_eq, text_beq,
  text_beq_iff, ◌≡◌, refl, arith, any, Bool-cases, inl, inr, ap,
}
use rustice.Prelude.HashMap.{HashMap, get, insert, get-insert, Unique, insert-Unique}
use rustice.Executor.Merge.{
  Cell, unique_files_and_manifests, Batch, Poll, batch, failed, ended, pending, MergeStream,
  new_stream, extend, push_file, group_files, poll_next, polls,
}
use rustice.Executor.Merge.Files.{
  occurs, AreRows, Collects, unique_files_and_manifests-Collects, unique_files_and_manifests-Unique,
}

get-extend :
    (f : Text) (pairs m : HashMap Text Text)
    → Unique pairs
    → get f (extend pairs m) ≡ elim (get f pairs) [ none ↦ get f m | some v ↦ some v ]
unfolding get extend
get-extend f [] m h = refl
get-extend f ((k, v) ∷ pairs) m h =
    ground (arith, get-extend f pairs (insert k v m) h.1, get-insert k f v m, text_beq_iff k f, h.0)

extend-Unique : (pairs m : HashMap Text Text) → Unique m → Unique (extend pairs m)
unfolding extend
extend-Unique [] m h = h
extend-Unique ((k, v) ∷ pairs) m h = extend-Unique pairs (insert k v m) (insert-Unique k v m h)

-- The files under a manifest.
abbrev pub files_of : Option (List Text) → List Text
files_of none = []
files_of (some files) = files

abbrev pub includes : Text → List Text → Bool
includes f files = any (λ g. text_beq g f) files

includes-append :
    (f g : Text) (files : List Text)
    → includes f (files ++ (g ∷ [])) ≡ (includes f files || text_beq g f)
includes-append f g [] = ground arith
includes-append f g (h ∷ files) = ground (arith, includes-append f g files)

pushed :
    (file : Text) (o : Option (List Text))
    → elim o as (λ _. List Text) [ none ↦ file ∷ [] | some v ↦ v ++ (file ∷ []) ]
      ≡ files_of o ++ (file ∷ [])
pushed file none = refl
pushed file (some v) = refl

push_file_lem :
    (f k file manifest : Text) (grouped : HashMap Text (List Text))
    → includes f (files_of (get k (push_file file manifest grouped)))
      ≡ (includes f (files_of (get k grouped)) || (text_beq file f && text_beq manifest k))
unfolding push_file
push_file_lem f k file manifest grouped =
    let files = files_of (get manifest grouped) ++ (file ∷ []) in
    let e : push_file file manifest grouped ≡ insert manifest files grouped =
      ap (λ l. insert manifest l grouped) (pushed file (get manifest grouped)) in
    rw e (elim (Bool-cases (text_beq manifest k)) [
      | inl same ↦ ground (
        arith,
        same,
        get-insert manifest k files grouped,
        includes-append f file (files_of (get manifest grouped)),
        (text_beq_iff manifest k).0 same,
      )
      | inr other ↦ ground (arith, other, get-insert manifest k files grouped)
    ])

-- The pair of a file and a manifest is among the files.
abbrev paired : Text → Text → HashMap Text Text → Bool
paired f k pairs = any (λ p. text_beq p.0 f && text_beq p.1 k) pairs

group_files_lem :
    (f k : Text) (pairs : HashMap Text Text) (grouped : HashMap Text (List Text))
    → includes f (files_of (get k (group_files pairs grouped)))
      ≡ (includes f (files_of (get k grouped)) || paired f k pairs)
unfolding group_files
group_files_lem f k [] grouped = ground arith
group_files_lem f k ((file, manifest) ∷ pairs) grouped = ground (
  arith,
  group_files_lem f k pairs (push_file file manifest grouped),
  push_file_lem f k file manifest grouped,
)

abbrev is_text : Text → Option Text → Bool
is_text k none = false
is_text k (some m) = text_beq m k

paired_lem :
    (f k : Text) (pairs : HashMap Text Text)
    → Unique pairs
    → paired f k pairs ≡ is_text k (get f pairs)
unfolding get
paired_lem f k [] h = refl
paired_lem f k ((g, m) ∷ pairs) h = ground (arith, paired_lem f k pairs h.1, h.0, text_beq_iff g f)

module _ (manifest_of : Text → Text) where
  abbrev Tracks : (Text → Bool) → MergeStream → Type 0
  Tracks test s = Collects manifest_of test s.matching_files × Unique s.matching_files

  extend-Collects :
      (test : Text → Bool) (rows : List (Cell × Cell)) (m : HashMap Text Text)
      → AreRows manifest_of rows
      → Collects manifest_of test m
      → Collects manifest_of
          (λ f. test f || occurs f rows)
          (extend (unique_files_and_manifests rows) m)
  extend-Collects test rows m are h f = ground (
    arith,
    get-extend f (unique_files_and_manifests rows) m (unique_files_and_manifests-Unique rows),
    unique_files_and_manifests-Collects manifest_of rows are f,
    h f,
  )

module _ {C : Type 0} (manifest_of : Text → Text) where
  -- The batches that come before the end, with the manifest of each file that they name.
  abbrev pub AreBatches : List (Poll (Batch C)) → Type 0
  AreBatches [] = Unit {0}
  AreBatches (batch b ∷ ps) = AreRows manifest_of b.rows × AreBatches ps
  AreBatches (failed e ∷ ps) = AreBatches ps
  AreBatches (ended ∷ ps) = ⊥
  AreBatches (pending ∷ ps) = AreBatches ps

abbrev pub named : {C : Type 0} → Text → List (Poll (Batch C)) → Bool
named f [] = false
named f (batch b ∷ ps) = occurs f b.rows || named f ps
named f (p ∷ ps) = named f ps

module _ {C : Type 0} (manifest_of : Text → Text) where
  polls-Tracks :
      (test : Text → Bool) (ps : List (Poll (Batch C))) (s : MergeStream)
      → AreBatches manifest_of ps
      → Tracks manifest_of test s
      → Tracks manifest_of (λ f. test f || named f ps) (polls ps s)
  unfolding polls poll_next
  polls-Tracks test [] s are h = ((λ f. ground (arith, h.0 f)), h.1)
  polls-Tracks test (batch b ∷ ps) s are h =
      let test' = λ (f : Text). test f || occurs f b.rows in
      let collected = extend-Collects manifest_of test b.rows s.matching_files are.0 h.0 in
      let unique = extend-Unique (unique_files_and_manifests b.rows) s.matching_files h.1 in
      let rest = polls-Tracks test' ps (poll_next (batch b) s).1 are.1 (collected, unique) in
      ((λ f. ground (arith, rest.0 f)), rest.1)
  polls-Tracks test (ended ∷ ps) s are h = elim are [ ]
  polls-Tracks test (failed e ∷ ps) s are h = polls-Tracks test ps s are h
  polls-Tracks test (pending ∷ ps) s are h = polls-Tracks test ps s are h

  -- When the input has ended, the files under each manifest are those that a row of a batch names and
  -- that belong to the manifest, where a null has no text under it and a row that names a file names
  -- the manifest that it belongs to, however the batches cut the rows and however often a file comes.
  pub polls-ended :
      (ps : List (Poll (Batch C)))
      → AreBatches manifest_of ps
      → (grouped : HashMap Text (List Text)) × ((poll_next {C = C} ended
            (polls ps new_stream)).1.matching_files_ref
          ≡ some grouped)
        × ((f k : Text)
            → includes f (files_of (get k grouped)) ≡ (named f ps && text_beq (manifest_of f) k))
  unfolding poll_next new_stream get
  polls-ended ps are =
      let tracks = polls-Tracks (λ f. false) ps new_stream are ((λ f. refl), tt) in
      let pairs = (polls ps new_stream).matching_files in
      (
        group_files pairs [],
        refl,
        λ f k.
            ground (arith, group_files_lem f k pairs [], paired_lem f k pairs tracks.1, tracks.0 f),
      )
