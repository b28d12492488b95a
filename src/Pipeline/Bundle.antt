-- ===== src/Pipeline/Bundle.antt =====
-- pipeline/fix_proposer.py: the bundle of file contents for the prompt.
use bugalizer.Prelude.{
  ℕ, ◌+◌, ◌*◌, ◌-◌, ◌≤◌, inl, inr, List, [], ◌∷◌, String, arith, Bool-cases, leb, nat_beq,
  if◌then◌else◌,
}
use bugalizer.Store.{Text}
use bugalizer.Ingest.Texts.{length, take, length-take}
use bugalizer.Sync.Results.{utf8_length}
use bugalizer.Pipeline.{cap_bundle}

unfoldable pub total : List (String × Text) → ℕ
total [] = 0
total ((path, content) ∷ files) = length content + total files

clipped_within :
    (room : ℕ) (t : Text) → length (if leb (length t) room then t else take room t) ≤ room
clipped_within room t = elim (Bool-cases (leb (length t) room)) [
  | inl e ↦ rw e (ground (arith, e))
  | inr e ↦ rw e (length-take room t)
]

unfoldable pub total_bytes : List (String × Text) → ℕ
total_bytes [] = 0
total_bytes ((path, content) ∷ files) = utf8_length content + total_bytes files

-- UTF-8 takes one to four bytes for a character.
bytes_within : (t : Text) → utf8_length t ≤ 4 * length t
unfolding utf8_length length
bytes_within [] = omega arith
bytes_within (c ∷ t) = ground (arith, bytes_within t)

total_bytes_within : (files : List (String × Text)) → total_bytes files ≤ 4 * total files
unfolding total_bytes total
total_bytes_within [] = omega arith
total_bytes_within ((path, content) ∷ files) =
    omega (arith, bytes_within content, total_bytes_within files)

characters_within : (room : ℕ) (files : List (String × Text)) → total (cap_bundle room files) ≤ room
unfolding total cap_bundle
characters_within room [] = omega arith
characters_within room ((path, content) ∷ files) =
    let clipped = if leb (length content) room then content else take room content in
    let fits : length clipped ≤ room = clipped_within room content in
    elim (Bool-cases (nat_beq room 0)) [
      | inl e ↦ rw e (omega arith)
      | inr e ↦ rw e (omega (arith, fits, characters_within (room - length clipped) files))
    ]

-- The contents of a bundle have no more characters than the cap, however many files were read and however long they
-- are, and so no more bytes in UTF-8 than four times the cap: the cap counts characters.
pub bundle_within :
    (room : ℕ) (files : List (String × Text))
    → (total (cap_bundle room files) ≤ room) × (total_bytes (cap_bundle room files) ≤ 4 * room)
bundle_within room files =
    let fits = characters_within room files in
    (fits, omega (arith, fits, total_bytes_within (cap_bundle room files)))
