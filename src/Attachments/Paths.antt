-- ===== src/Attachments/Paths.antt =====
-- lib.rs of banto-attachments, `body_path` and `thumbnail_path`: no two files of attachments share a path. What
-- the writing of one file leaves of the others.
use my_template.Prelude.{
  ℕ, ◌<>◌, ◌≡◌, ◌≢◌, refl, sym, ◌∙◌, Char, code, String, has_char, all_chars-has_char,
  all_chars-to_string, is_ascii_digit, to_string, to_string_injective, split_unique, cancel_prefix,
  false, true, some, has_char-append, arith, ap,
}
use my_template.Core.{Result, ok, err, BantoError}
use my_template.Disk.{Bytes, Files, lookup, io, create_dir_all, write, pure, IoError, ◌>>◌}
use my_template.Disk.Ensures.{
  Ensures, Ensures-io, Ensures-pure, lookup-put, lookup-put_ne, lookup-left,
}
use my_template.Backup.Names.{join}
use my_template.Attachments.Files.{body_path, thumbnail_path, write_body, write_thumbnail}

not_dot : (c : Char) → code c ≡ b'.' → is_ascii_digit c ≡ false
unfolding is_ascii_digit
not_dot c e = ground arith

digits-Free : (n : ℕ) → has_char b'.' (to_string n) ≡ false
digits-Free n = all_chars-has_char is_ascii_digit b'.' (to_string n) not_dot (all_chars-to_string n)

true_ne : true ≢ false
true_ne e = cc e

module _ (base_dir : String) where
  after_dir : (x y : String) → join base_dir x ≡ join base_dir y → x ≡ y
  after_dir x y e = cancel_prefix "/" x y (cancel_prefix base_dir _ _ e)

  pub body_path-ne : (i j : ℕ) → i ≢ j → body_path base_dir i ≢ body_path base_dir j
  unfolding body_path
  body_path-ne i j ne e = ne (to_string_injective i j (after_dir (to_string i) (to_string j) e))

  pub thumbnail_path-ne : (i j : ℕ) → i ≢ j → thumbnail_path base_dir i ≢ thumbnail_path base_dir j
  unfolding thumbnail_path
  thumbnail_path-ne i j ne e = ne (
      to_string_injective i j
        (split_unique "." (to_string i) (to_string j) "thumb.jpg" "thumb.jpg" (digits-Free i)
          (digits-Free j) (after_dir _ _ e)).0)

  pub body_path-thumbnail_path : (i j : ℕ) → body_path base_dir i ≢ thumbnail_path base_dir j
  unfolding body_path thumbnail_path
  body_path-thumbnail_path i j e = true_ne (
      sym (has_char-append b'.' (to_string j) ".thumb.jpg" refl)
      ∙ sym (ap (has_char b'.') (after_dir (to_string i) (to_string j <> ".thumb.jpg") e))
      ∙ digits-Free i)

-- What the writing of a file leaves: no other file has changed, and if it has succeeded the file is there.
abbrev pub Wrote : ℕ → String → Bytes → Files → Result (Unit {0}) → Files → Type 0
Wrote now p bytes files r files' =
    ((q : String) → p ≢ q → lookup q files' ≡ lookup q files)
    × (r ≡ ok tt → lookup p files' ≡ some (record { bytes = bytes; modified = now }))

ok_apart : (e : BantoError) → ◌≢◌ {A = Result (Unit {0})} (err e) (ok tt)
ok_apart e h = cc h

module _ (dir p : String) (now : ℕ) (bytes : Bytes) (files : Files) where
  writing-Wrote :
      (no_dir no_file : IoError → BantoError)
      → Ensures files
          (io no_dir (create_dir_all dir) >> (io no_file (write now p bytes) >> pure tt))
          (Wrote now p bytes files)
  writing-Wrote no_dir no_file =
      Ensures-io _ _ _ (λ fault. (λ q ne. refl, λ h. absurd (ok_apart _ h)))
        (λ e bad. (λ q ne. refl, λ h. absurd (ok_apart _ h)))
        λ made run.
          Ensures-io _ _ _
            (λ fault.
              (λ q ne. lookup-left now p q fault.partial files ne, λ h. absurd (ok_apart _ h)))
            (λ e bad. (λ q ne. lookup-put_ne p q _ files ne, λ h. absurd (ok_apart _ h)))
            λ wrote run.
              Ensures-pure tt (λ q ne. lookup-put_ne p q _ files ne, λ h. lookup-put p _ files)

module _ (base_dir : String) (now id : ℕ) (bytes : Bytes) (files : Files) where
  pub write_body-Wrote :
      Ensures files
        (write_body base_dir now id bytes)
        (Wrote now (body_path base_dir id) bytes files)
  unfolding write_body
  write_body-Wrote = writing-Wrote base_dir _ now bytes files _ _

  pub write_thumbnail-Wrote :
      Ensures files
        (write_thumbnail base_dir now id bytes)
        (Wrote now (thumbnail_path base_dir id) bytes files)
  unfolding write_thumbnail
  write_thumbnail-Wrote = writing-Wrote base_dir _ now bytes files _ _
