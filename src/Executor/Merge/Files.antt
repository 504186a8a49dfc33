-- ===== src/Executor/Merge/Files.antt =====
-- The files of a batch of a MERGE (crates/executor/src/datafusion/physical_plan/merge.rs): to look only
-- at the rows whose file is not that of the row before loses none.
use rustice.Prelude.{
  Bool, true, false, ◌&&◌, ◌||◌, not, none, some, List, [], ◌∷◌, Text, text_eq, text_beq,
  text_beq_iff, is_empty, if◌then◌else◌, ◌≡◌, refl, arith, subst, sym, ◌∙◌, Bool-cases, inl, inr,
}
use rustice.Prelude.HashMap.{HashMap, get, get-insert, Unique, insert-Unique}
use rustice.Executor.Merge.{
  Cell, distinct, insert_pair, insert_distinct, first_pair, unique_files_and_manifests,
}

-- The row names the file.
unfoldable pub names : Text → Cell × Cell → Bool
names f (file, manifest) = file.is_valid && (not (is_empty file.text) && text_beq file.text f)

unfoldable pub occurs : Text → List (Cell × Cell) → Bool
occurs f [] = false
occurs f (row ∷ rows) = names f row || occurs f rows

-- A null has no text, and a row that names a file names its manifest.
abbrev pub IsRow : (Text → Text) → Cell × Cell → Type 0
IsRow manifest_of (file, manifest) =
    (file.is_valid ≡ false → file.text ≡ [])
    × (file.is_valid ≡ true
        → is_empty file.text ≡ false
        → (manifest.is_valid ≡ true) × (manifest.text ≡ manifest_of file.text))

abbrev pub AreRows : (Text → Text) → List (Cell × Cell) → Type 0
AreRows manifest_of [] = Unit {0}
AreRows manifest_of (row ∷ rows) = IsRow manifest_of row × AreRows manifest_of rows

module _ (manifest_of : Text → Text) where
  -- The pairs of the files of the test.
  abbrev pub Collects : (Text → Bool) → HashMap Text Text → Type 0
  Collects test pairs = (f : Text) → get f pairs ≡ (if test f then some (manifest_of f) else none)

  -- The previous file is collected.
  abbrev Covers : (Text → Bool) → Cell → Type 0
  Covers test previous =
      previous.is_valid ≡ true → is_empty previous.text ≡ false → test previous.text ≡ true

  insert_pair-Collects :
      (test : Text → Bool) (file manifest : Cell) (acc : HashMap Text Text)
      → IsRow manifest_of (file, manifest)
      → Collects test acc
      → Collects (λ f. test f || names f (file, manifest)) (insert_pair file manifest acc)
  unfolding insert_pair names
  insert_pair-Collects test file manifest acc row h f =
      ground (
        arith,
        row.0,
        row.1,
        h f,
        get-insert file.text f manifest.text acc,
        text_beq_iff file.text f,
      )

  -- A file that is not distinct from the one before has been collected with it.
  same-covered :
      (test : Text → Bool) (previous file manifest : Cell) (f : Text)
      → Covers test previous
      → distinct previous file ≡ false
      → names f (file, manifest) ≡ true
      → test f ≡ true
  unfolding distinct names
  same-covered test previous file manifest f covers same named =
      let text : file.text ≡ f = (text_beq_iff file.text f).0 (ground (arith, named)) in
      let valid : file.is_valid ≡ true = ground (arith, named) in
      let both : previous.is_valid ≡ true = ground (arith, same, valid) in
      let equal : previous.text ≡ file.text =
        (text_beq_iff previous.text file.text).0 (ground (arith, same, valid, both)) in
      let filled : is_empty file.text ≡ false = ground (arith, named) in
      subst (λ t. test t ≡ true) (equal ∙ text)
        (covers both (subst (λ t. is_empty t ≡ false) (sym equal) filled))

  same-Collects :
      (test : Text → Bool) (previous file manifest : Cell) (acc : HashMap Text Text)
      → Covers test previous
      → distinct previous file ≡ false
      → Collects test acc
      → Collects (λ f. test f || names f (file, manifest)) acc
  same-Collects test previous file manifest acc covers same h f =
      elim (Bool-cases (names f (file, manifest))) [
        | inl named ↦
            let there = same-covered test previous file manifest f covers same named in
            ground (arith, there, h f)
        | inr other ↦ ground (arith, other, h f)
      ]

  file-Covers :
      (test : Text → Bool) (file manifest : Cell)
      → Covers (λ f. test f || names f (file, manifest)) file
  unfolding names
  file-Covers test file manifest valid filled =
      ground (arith, valid, filled, text_beq_iff file.text file.text)

  insert_distinct-Collects :
      (test : Text → Bool) (previous : Cell) (rows : List (Cell × Cell)) (acc : HashMap Text Text)
      → AreRows manifest_of rows
      → Covers test previous
      → Collects test acc
      → Collects (λ f. test f || occurs f rows) (insert_distinct previous rows acc)
  unfolding insert_distinct occurs
  insert_distinct-Collects test previous [] acc are covers h f = ground (arith, h f)
  insert_distinct-Collects test previous ((file, manifest) ∷ rows) acc are covers h f =
      let test' = λ (g : Text). test g || names g (file, manifest) in
      let acc' = if distinct previous file then insert_pair file manifest acc else acc in
      let collects : Collects test' acc' = elim (Bool-cases (distinct previous file)) [
        | inl apart ↦ rw apart (insert_pair-Collects test file manifest acc are.0 h)
        | inr same ↦ rw same (same-Collects test previous file manifest acc covers same h)
      ] in
      let rest =
        insert_distinct-Collects test' file rows acc' are.1 (file-Covers test file manifest)
          collects f in
      ground (arith, rest)

  names_self : (file manifest : Cell) → Covers (λ g. names g (file, manifest)) file
  unfolding names
  names_self file manifest valid filled =
      ground (arith, valid, filled, text_beq_iff file.text file.text)

  first_pair-Collects :
      (file manifest : Cell)
      → IsRow manifest_of (file, manifest)
      → Collects (λ g. names g (file, manifest)) (first_pair file manifest)
  unfolding names first_pair get
  first_pair-Collects file manifest row g = ground (arith, row.0, row.1, text_beq_iff file.text g)

  -- The pairs of a batch are those of all files that its rows name.
  pub unique_files_and_manifests-Collects :
      (rows : List (Cell × Cell))
      → AreRows manifest_of rows
      → Collects (λ f. occurs f rows) (unique_files_and_manifests rows)
  unfolding unique_files_and_manifests occurs get
  unique_files_and_manifests-Collects [] are f = refl
  unique_files_and_manifests-Collects ((file, manifest) ∷ rows) are f =
      insert_distinct-Collects (λ g. names g (file, manifest)) file rows (first_pair file manifest)
        are.1 (names_self file manifest) (first_pair-Collects file manifest are.0) f

insert_pair-Unique :
    (file manifest : Cell) (acc : HashMap Text Text)
    → Unique acc
    → Unique (insert_pair file manifest acc)
unfolding insert_pair
insert_pair-Unique file manifest acc h =
    ground (arith, h, insert-Unique file.text manifest.text acc h)

insert_distinct-Unique :
    (previous : Cell) (rows : List (Cell × Cell)) (acc : HashMap Text Text)
    → Unique acc
    → Unique (insert_distinct previous rows acc)
unfolding insert_distinct
insert_distinct-Unique previous [] acc h = h
insert_distinct-Unique previous ((file, manifest) ∷ rows) acc h =
    insert_distinct-Unique file rows _ (elim (Bool-cases (distinct previous file)) [
      | inl apart ↦ rw apart (insert_pair-Unique file manifest acc h)
      | inr same ↦ rw same h
    ])

-- Each file has one pair.
pub unique_files_and_manifests-Unique :
    (rows : List (Cell × Cell)) → Unique (unique_files_and_manifests rows)
unfolding unique_files_and_manifests first_pair get
unique_files_and_manifests-Unique [] = tt
unique_files_and_manifests-Unique ((file, manifest) ∷ rows) =
    insert_distinct-Unique file rows (first_pair file manifest)
      (elim (Bool-cases (is_empty file.text)) [
        | inl empty ↦ rw empty tt
        | inr filled ↦ rw filled (refl, tt)
      ])
