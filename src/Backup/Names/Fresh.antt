-- ===== src/Backup/Names/Fresh.antt =====
-- backup.rs, `unique_path`: the loop ends, at a name that is free.
use my_template.Prelude.{
  ℕ, zero, suc, ◌+◌, ◌%◌, ◌≤◌, ◌<◌, ◌≡◌, ◌≢◌, refl, ◌∙◌, Char, code, String, ◌<>◌,
  all_chars-has_char, all_chars-to_string, has_char, is_ascii_digit, to_string, to_string_injective,
  split_unique, heads_ne, cancel_prefix, true, false, [], ◌∷◌, length, arith, Bool-cases, inl, inr,
}
use my_template.Disk.{Files, lookup, erase, exists}
use my_template.Disk.Ensures.{lookup-erase_ne}
use my_template.Backup.Names.{join, numbered, unique_from, unique_path}

length-erase : (p : String) (files : Files) → length (erase p files) ≤ length files
unfolding erase
length-erase p [] = omega arith
length-erase p (f ∷ files) = ground (arith, length-erase p files)

length-erase_lt :
    (p : String) (files : Files) → exists p files ≡ true → length (erase p files) < length files
unfolding erase exists lookup
length-erase_lt p [] h = ground arith
length-erase_lt p (f ∷ files) h = ground (arith, length-erase p files, length-erase_lt p files)

exists-erase_ne : (p q : String) (files : Files) → p ≢ q → exists q (erase p files) ≡ exists q files
unfolding exists
exists-erase_ne p q files ne = rw (lookup-erase_ne p q files ne) refl

not_dot : (c : Char) → code c ≡ b'.' → is_ascii_digit c ≡ false
unfolding is_ascii_digit
not_dot c e = ground arith

digits-Free : (n : ℕ) → has_char b'.' (to_string n) ≡ false
digits-Free n = all_chars-has_char is_ascii_digit b'.' (to_string n) not_dot (all_chars-to_string n)

module _ (dir base_stem ext : String) where
  abbrev candidate : ℕ → String
  candidate n = join dir (numbered base_stem ext n)

  abbrev plain : String
  plain = join dir (base_stem <> "." <> ext)

  after_stem : (x y : String) → join dir (base_stem <> x) ≡ join dir (base_stem <> y) → x ≡ y
  after_stem x y e = cancel_prefix base_stem x y (cancel_prefix "/" _ _ (cancel_prefix dir _ _ e))

  candidate_injective : (m n : ℕ) → candidate m ≡ candidate n → m ≡ n
  candidate_injective m n e =
      let after =
        cancel_prefix "-" (to_string m <> "." <> ext) (to_string n <> "." <> ext)
          (after_stem _ _ e) in
      to_string_injective m n
        (split_unique "." (to_string m) (to_string n) ext ext (digits-Free m) (digits-Free n)
          after).0

  dot_dash : (x y : String) → "." <> x ≢ "-" <> y
  dot_dash x y = heads_ne "." "-" x y (λ e. omega arith)

  plain_ne : (n : ℕ) → plain ≢ candidate n
  plain_ne n e = dot_dash ext (to_string n <> "." <> ext) (after_stem _ _ e)

  module _ (files : Files) where
    -- The candidates from `n` on that exist are all among some of the files.
    abbrev Among : ℕ → Files → Type 0
    Among n rest =
        (m : ℕ) → n ≤ m → exists (candidate m) files ≡ true → exists (candidate m) rest ≡ true

    Among-erase : (n : ℕ) (rest : Files) → Among n rest → Among (suc n) (erase (candidate n) rest)
    Among-erase n rest among m le h =
        exists-erase_ne (candidate n) (candidate m) rest
          (λ e. omega (arith, candidate_injective n m e))
        ∙ among m (omega arith) h

    unique_from-free :
        (fuel n : ℕ) (rest : Files)
        → n + fuel ≤ 4294967296
        → length rest < fuel
        → Among n rest
        → exists (join dir (unique_from fuel files dir base_stem ext n)) files ≡ false
    unfolding unique_from
    unique_from-free zero n rest top enough among = absurd (omega arith)
    unique_from-free (suc fuel) n rest top enough among =
        elim (Bool-cases (exists (candidate n) files)) [
          | inl e ↦
              let shorter = length-erase_lt (candidate n) rest (among n (omega arith) e) in
              let unwrapped : suc n % 4294967296 ≡ suc n = omega (arith, shorter) in
              rw (e, unwrapped)
                (unique_from-free fuel (suc n) (erase (candidate n) rest) (omega arith)
                  (omega (arith, shorter)) (Among-erase n rest among))
          | inr e ↦ rw e e
        ]

-- With fewer than 2 ^ 32 files the loop of unique_path ends, after at most as many steps as there are
-- files, and no file has the path that it answers.
pub unique_path-free :
    (files : Files) (dir base_stem ext : String)
    → length files < 4294967296
    → exists (join dir (unique_path files dir base_stem ext)) files ≡ false
unfolding unique_path
unique_path-free files dir base_stem ext few =
    elim (Bool-cases (exists (plain dir base_stem ext) files)) [
      | inl e ↦ rw e (
          unique_from-free dir base_stem ext files (length files) 1
            (erase (plain dir base_stem ext) files) (omega arith)
            (length-erase_lt (plain dir base_stem ext) files e)
            λ m le h.
              exists-erase_ne (plain dir base_stem ext) (candidate dir base_stem ext m) files
                (plain_ne dir base_stem ext m)
              ∙ h)
      | inr e ↦ rw e e
    ]
