-- ===== src/Log/Write.antt =====
-- What `LogManager::write` of src/middleware/storage/log_manager.cpp does to the files, on each branch.
use iot_dev_sys.Common.{
  ℕ, suc, ◌<◌, String, Bool, true, false, ◌≡◌, ◌≢◌, refl, sym, ◌∙◌, subst, none, some, ◌==◌,
  text_self, arith, ltb, if◌then◌else◌, inl, inr, Bool-cases,
}
use iot_dev_sys.Common.Int.{ℤ, pos_part}
use iot_dev_sys.Common.Text.{append}
use iot_dev_sys.Log.{
  FileSystem, LogManager, Level, rank, base_path, rotated, or_none, rotate_files, is_full, rewrite,
  write_text, write, log_line,
}
use iot_dev_sys.Log.Files.{IsLawful}
use iot_dev_sys.Log.Rotate.{rotate_files-Moved, base_other, other_false}

-- Where the text at each path is after the current file got too long: the text was added to the
-- file, which is now the first rotated one, and stands in the new file as well.
pub record Rotated (F : FileSystem) (base : String) (max : ℕ) (text : String) (s t : F.State)
    : Type 0 where
  pub current : F.read t base ≡ some text
  pub first : F.read t (rotated base 0) ≡ some (append (or_none (F.read s base)) text)
  pub next : (i : ℕ) → suc i < max → F.read t (rotated base (suc i)) ≡ F.read s (rotated base i)
  pub rest :
      (q : String) → base ≢ q → ((i : ℕ) → i < max → rotated base i ≢ q) → F.read t q ≡ F.read s q

rewrite_lem :
    (F : FileSystem) (m : LogManager) (text : String) (o : Bool × F.State)
    → o.0 ≡ true
    → (rewrite F m text o).1 ≡ F.write_end o.1 m.current_file_path text
rewrite_lem F m text (false, s) h = cc
rewrite_lem F m text (true, s) h = refl

module _ (F : FileSystem) (size : String → ℕ) where
  text_fits :
      (m : LogManager) (text : String) (s : F.State)
      → m.is_open ≡ true
      → is_full F size m (F.write_end s m.current_file_path text) ≡ false
      → write_text F size m text s ≡ (m, F.write_end s m.current_file_path text)
  unfolding write_text
  text_fits m text s o fits = ground arith

  write-write_text :
      (level : Level) (name msg ts : String) (m : LogManager) (s : F.State)
      → ltb (rank level) (rank m.min_level) ≡ false
      → write F size level name msg ts m s
        ≡ write_text F size m (append (log_line m ts level name msg) "\n") s
  unfolding write
  write-write_text level name msg ts m s h = ground arith

  pub write_fits :
      (level : Level) (name msg ts : String) (m : LogManager) (s : F.State)
      → ltb (rank level) (rank m.min_level) ≡ false
      → m.is_open ≡ true
      → is_full F size m
          (F.write_end s m.current_file_path (append (log_line m ts level name msg) "\n"))
        ≡ false
      → write F size level name msg ts m s
        ≡ (m, F.write_end s m.current_file_path (append (log_line m ts level name msg) "\n"))
  write_fits level name msg ts m s h o fits =
      write-write_text level name msg ts m s h
      ∙ text_fits m (append (log_line m ts level name msg) "\n") s o fits

module _ (F : FileSystem) (L : IsLawful F)
    (opens : (s : F.State) (p : String) → (F.open_file s p).0 ≡ true) where
  -- The file at `p` after it is opened again and written into.
  abbrev reopened : String → String → F.State → F.State
  reopened p text r = F.write_end (F.open_file r p).1 p text

  reopened-read :
      (p text : String) (r : F.State) (q : String)
      → F.read r p ≡ none
      → F.read (reopened p text r) q ≡ (if p == q then some text else F.read r q)
  unfolding append
  reopened-read p text r q gone =
      L.read-write_end (F.open_file r p).1 p text q
      ∙ rw (L.read-open_file r p p (opens r p)) (
          rw (L.read-open_file r p q (opens r p)) (
            rw (text_self p)
              (rw gone (elim (Bool-cases (p == q)) [ inl e ↦ rw e refl | inr e ↦ rw e refl ]))))

  module _ (base : String) (max : ℤ) (text : String) (s : F.State) where
    abbrev written : F.State
    written = F.write_end s base text

    abbrev after_rotation : F.State
    after_rotation = reopened base text (rotate_files F base max written)

    other-read : (q : String) → base ≢ q → F.read written q ≡ F.read s q
    other-read q n = L.read-write_end s base text q ∙ rw (other_false base q n) refl

    after-read :
        (q : String)
        → 0 < pos_part max
        → base ≢ q
        → F.read after_rotation q ≡ F.read (rotate_files F base max written) q
    after-read q h n =
        reopened-read base text (rotate_files F base max written) q
          (rotate_files-Moved F L base max written h).current
        ∙ rw (other_false base q n) refl

    -- A rotation of the files into which `text` was written, and writing it again.
    after_rotation-Rotated : 0 < pos_part max → Rotated F base (pos_part max) text s after_rotation
    after_rotation-Rotated h =
        let moved = rotate_files-Moved F L base max written h in
        record {
          current =
              reopened-read base text (rotate_files F base max written) base moved.current
              ∙ rw (text_self base) refl;
          first =
              after-read (rotated base 0) h (base_other base 0)
              ∙ moved.first
              ∙ L.read-write_end s base text base
              ∙ rw (text_self base) refl;
          next = λ i l.
              after-read (rotated base (suc i)) h (base_other base (suc i))
              ∙ moved.next i l
              ∙ other-read (rotated base i) (base_other base i);
          rest = λ q n o. after-read q h n ∙ moved.rest q n o ∙ other-read q n;
        }

  module _ (size : String → ℕ) (m : LogManager) (text : String) (s : F.State) where
    text-Rotated :
        m.is_open ≡ true
        → is_full F size m (F.write_end s m.current_file_path text) ≡ true
        → 0 < pos_part m.max_files
        → m.current_file_path ≡ base_path m.log_dir
        → Rotated F
            (base_path m.log_dir)
            (pos_part m.max_files)
            text
            s
            (write_text F size m text s).1
    unfolding write_text
    text-Rotated o full h e =
        rw (o, write_text)
          (rw full (
            let base = base_path m.log_dir in
            let r = rotate_files F base m.max_files (F.write_end s m.current_file_path text) in
            subst (Rotated F base (pos_part m.max_files) text s)
              (sym (
                rewrite_lem F (record m { is_open = true }) text (F.open_file r m.current_file_path)
                  (opens r m.current_file_path)))
              (subst
                (λ p.
                  Rotated F base (pos_part m.max_files) text s
                    (reopened p text (rotate_files F base m.max_files (F.write_end s p text))))
                (sym e) (after_rotation-Rotated base m.max_files text s h))))

  -- A line that makes the current file too long is written twice: at the end of the full file, which
  -- becomes the first rotated one, and as the only line of the new current file. The other rotated
  -- files have the next number, the last one is gone, and every other file is as before. The log keeps
  -- at least one rotated file, and its files can be opened.
  pub write-Rotated :
      (size : String → ℕ) (level : Level) (name msg ts : String) (m : LogManager) (s : F.State)
      → ltb (rank level) (rank m.min_level) ≡ false
      → m.is_open ≡ true
      → is_full F size m
          (F.write_end s m.current_file_path (append (log_line m ts level name msg) "\n"))
        ≡ true
      → 0 < pos_part m.max_files
      → m.current_file_path ≡ base_path m.log_dir
      → Rotated F
          (base_path m.log_dir)
          (pos_part m.max_files)
          (append (log_line m ts level name msg) "\n")
          s
          (write F size level name msg ts m s).1
  write-Rotated size level name msg ts m s h o full k e =
      subst
        (λ (r : LogManager × F.State).
          Rotated F (base_path m.log_dir) (pos_part m.max_files)
            (append (log_line m ts level name msg) "\n") s r.1)
        (sym (write-write_text F size level name msg ts m s h))
        (text-Rotated size m (append (log_line m ts level name msg) "\n") s o full k e)
