-- ===== src/Log/Rotate.antt =====
-- `LogManager::rotate` of src/middleware/storage/log_manager.cpp: where each file goes.
use iot_dev_sys.Common.{
  ℕ, zero, suc, ◌-◌, ◌≤◌, ◌<◌, String, false, ◌≡◌, ◌≢◌, refl, sym, ap, ◌∙◌, none, ◌==◌, text_iff,
  text_self, arith, nat_eq, leb, if◌then◌else◌, inl, inr, some_inj, Option-cases,
}
use iot_dev_sys.Common.Int.{ℤ, pos, pos_part}
use iot_dev_sys.Common.Text.{append, append-nil}
use iot_dev_sys.Json.{strip}
use iot_dev_sys.Json.Numbers.{to_string, pos-to_string}
use iot_dev_sys.Json.Fields.{strip-append}
use iot_dev_sys.Log.{FileSystem, rotated, shift_one, shift, to_first, rotate_files}
use iot_dev_sys.Log.Files.{IsLawful}

append_cancel : (a b c : String) → append a b ≡ append a c → b ≡ c
append_cancel a b c e = some_inj (sym (strip-append a b) ∙ ap (strip a) e ∙ strip-append a c)

-- Two numbers of rotated files have two names.
pub rotated_inj : (base : String) (i j : ℕ) → rotated base i ≡ rotated base j → i ≡ j
unfolding rotated
rotated_inj base i j e = pos-to_string i j (
    append_cancel "." _ _
      (append_cancel base (append "." (to_string (pos i))) (append "." (to_string (pos j))) e))

pub rotated_eq : (base : String) (i j : ℕ) → (rotated base i == rotated base j) ≡ nat_eq i j
rotated_eq base i j =
    ground (arith, text_iff (rotated base i) (rotated base j), rotated_inj base i j)

dot_other : (t : String) → append "." t ≢ ""
unfolding strip
dot_other t e = cc (sym (strip-append "." t) ∙ ap (strip ".") e)

pub other_false : (a b : String) → a ≢ b → (a == b) ≡ false
other_false a b n = ground (arith, text_iff a b)

-- The current file has another name than each rotated one.
pub base_other : (base : String) (i : ℕ) → base ≢ rotated base i
unfolding rotated
base_other base i e =
    dot_other (to_string (pos i))
      (append_cancel base (append "." (to_string (pos i))) "" (sym e ∙ sym (append-nil base)))

-- The files in `t` are those in `s` after one rotation.
pub record Moved (F : FileSystem) (base : String) (max : ℕ) (s t : F.State) : Type 0 where
  pub current : F.read t base ≡ none
  pub first : F.read t (rotated base 0) ≡ F.read s base
  pub next : (i : ℕ) → suc i < max → F.read t (rotated base (suc i)) ≡ F.read s (rotated base i)
  pub rest :
      (q : String) → base ≢ q → ((i : ℕ) → i < max → rotated base i ≢ q) → F.read t q ≡ F.read s q

module _ (F : FileSystem) (L : IsLawful F) (base : String) (max : ℤ) where
  abbrev slot : ℕ → String
  slot i = rotated base i

  -- A round that is not the first moves a file to the next number, which is free.
  shift_one-read :
      (i : ℕ) (s : F.State) (q : String)
      → suc i < pos_part max
      → F.read s (slot (suc i)) ≡ none
      → F.read (shift_one F base max i s) q ≡ (
          if slot (suc i) == q then F.read s (slot i) else if slot i == q then none else F.read s q)
  unfolding shift_one
  shift_one-read i s q h free = elim (Option-cases (F.read s (slot i))) [
    | inl miss ↦ ground (arith, text_iff (slot (suc i)) q, text_iff (slot i) q)
    | inr (t, hit) ↦ ground (arith, L.read-rename s (slot i) (slot (suc i)) q)
  ]

  shift_one-slot :
      (n k : ℕ) (s : F.State)
      → suc n < pos_part max
      → F.read s (slot (suc n)) ≡ none
      → F.read (shift_one F base max n s) (slot k) ≡ (
          if nat_eq (suc n) k
          then F.read s (slot n)
          else if nat_eq n k
          then none
          else F.read s (slot k))
  shift_one-slot n k s h free =
      shift_one-read n s (slot k) h free
      ∙ rw (rotated_eq base (suc n) k) (rw (rotated_eq base n k) refl)

  free_next :
      (n : ℕ) (s : F.State)
      → suc n < pos_part max
      → F.read s (slot (suc n)) ≡ none
      → F.read (shift_one F base max n s) (slot n) ≡ none
  free_next n s h free = shift_one-slot n n s h free ∙ ground arith

  -- The first round removes the last file.
  shift_one_last :
      (i : ℕ) (s : F.State) (q : String)
      → suc i ≡ pos_part max
      → F.read (shift_one F base max i s) q ≡ (if slot i == q then none else F.read s q)
  unfolding shift_one
  shift_one_last i s q h = elim (Option-cases (F.read s (slot i))) [
    | inl miss ↦ ground (arith, text_iff (slot i) q)
    | inr (t, hit) ↦ ground (arith, L.read-remove s (slot i) q)
  ]

  -- The rounds from a free number down move each file below it to the next number.
  shift-slots :
      (n : ℕ) (s : F.State) (k : ℕ)
      → n < pos_part max
      → F.read s (slot n) ≡ none
      → F.read (shift F base max n s) (slot k) ≡ (
          if nat_eq k 0
          then none
          else if leb k n
          then F.read s (slot (k - 1))
          else F.read s (slot k))
  unfolding shift
  shift-slots zero s zero h free = free
  shift-slots zero s (suc k) h free = ground arith
  shift-slots (suc n) s k h free =
      shift-slots n (shift_one F base max n s) k (omega arith) (free_next n s h free)
      ∙ ground (arith, shift_one-slot n k s h free, shift_one-slot n (k - 1) s h free)

  shift_others :
      (n : ℕ) (s : F.State) (q : String)
      → n < pos_part max
      → F.read s (slot n) ≡ none
      → ((i : ℕ) → i ≤ n → slot i ≢ q)
      → F.read (shift F base max n s) q ≡ F.read s q
  unfolding shift
  shift_others zero s q h free other = refl
  shift_others (suc n) s q h free other =
      shift_others n (shift_one F base max n s) q (omega arith) (free_next n s h free)
        (λ i l. other i (omega arith))
      ∙ shift_one-read n s q h free
      ∙ rw (other_false (slot (suc n)) q (other (suc n) (omega arith)))
          (rw (other_false (slot n) q (other n (omega arith))) refl)

  shift_one_last-slot :
      (n k : ℕ) (s : F.State)
      → suc n ≡ pos_part max
      → F.read (shift_one F base max n s) (slot k)
        ≡ (if nat_eq n k then none else F.read s (slot k))
  shift_one_last-slot n k s e = shift_one_last n s (slot k) e ∙ rw (rotated_eq base n k) refl

  -- All the rounds together.
  shift_all-slots :
      (n k : ℕ) (s : F.State)
      → n ≡ pos_part max
      → k < n
      → F.read (shift F base max n s) (slot k)
        ≡ (if nat_eq k 0 then none else F.read s (slot (k - 1)))
  unfolding shift
  shift_all-slots zero k s e h = absurd (omega arith)
  shift_all-slots (suc n) k s e h =
      shift-slots n (shift_one F base max n s) k (omega arith)
        (shift_one_last-slot n n s e ∙ ground arith)
      ∙ ground (arith, shift_one_last-slot n (k - 1) s e)

  shift_all_others :
      (n : ℕ) (s : F.State) (q : String)
      → n ≡ pos_part max
      → ((i : ℕ) → i < n → slot i ≢ q)
      → F.read (shift F base max n s) q ≡ F.read s q
  unfolding shift
  shift_all_others zero s q e other = refl
  shift_all_others (suc n) s q e other =
      shift_others n (shift_one F base max n s) q (omega arith)
        (shift_one_last-slot n n s e ∙ ground arith) (λ i l. other i (omega arith))
      ∙ shift_one_last n s q e
      ∙ rw (other_false (slot n) q (other n (omega arith))) refl

  to_first-read :
      (u : F.State) (q : String)
      → F.read u (slot 0) ≡ none
      → F.read (to_first F base u) q
        ≡ (if slot 0 == q then F.read u base else if base == q then none else F.read u q)
  unfolding to_first
  to_first-read u q free = elim (Option-cases (F.read u base)) [
    | inl miss ↦ ground (arith, text_iff (slot 0) q, text_iff base q)
    | inr (t, hit) ↦ ground (arith, L.read-rename u base (slot 0) q)
  ]

  rotate_files-to_first :
      (s : F.State) (q : String)
      → 0 < pos_part max
      → F.read (rotate_files F base max s) q ≡ (
          if slot 0 == q
          then F.read s base
          else if base == q
          then none
          else F.read (shift F base max (pos_part max) s) q)
  unfolding rotate_files
  rotate_files-to_first s q h =
      to_first-read (shift F base max (pos_part max) s) q
        (shift_all-slots (pos_part max) 0 s refl h ∙ ground arith)
      ∙ rw (shift_all_others (pos_part max) s base refl (λ i l e. base_other base i (sym e))) refl

  moved_up :
      (s : F.State) (i : ℕ)
      → 0 < pos_part max
      → suc i < pos_part max
      → F.read (rotate_files F base max s) (slot (suc i)) ≡ F.read s (slot i)
  moved_up s i h l =
      rotate_files-to_first s (slot (suc i)) h
      ∙ ground (
        arith,
        rotated_eq base 0 (suc i),
        other_false base (slot (suc i)) (base_other base (suc i)),
        shift_all-slots (pos_part max) (suc i) s refl l,
      )

  -- A rotation that keeps at least one file makes the current file number 0, gives each rotated file
  -- the next number, removes the last one, and leaves every other file, so every rotated file with a
  -- number from `max` on, as it was.
  pub rotate_files-Moved :
      (s : F.State) → 0 < pos_part max → Moved F base (pos_part max) s (rotate_files F base max s)
  rotate_files-Moved s h = record {
    current =
        rotate_files-to_first s base h
        ∙ rw (other_false (slot 0) base (λ e. base_other base 0 (sym e)))
            (rw (text_self base) refl);
    first = rotate_files-to_first s (slot 0) h ∙ rw (text_self (slot 0)) refl;
    next = λ i l. moved_up s i h l;
    rest = λ q b o.
        rotate_files-to_first s q h
        ∙ rw (other_false (slot 0) q (o 0 h))
            (rw (other_false base q b) (shift_all_others (pos_part max) s q refl o));
  }
