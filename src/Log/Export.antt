-- ===== src/Log/Export.antt =====
-- `LogManager::export_recent` of src/middleware/storage/log_manager.cpp on the lines that `write` made.
use mathlib.Core.List.{append-nil}
use iot_dev_sys.Common.{
  ℕ, zero, suc, String, Bool, true, false, not, ◌≡◌, refl, ap, ◌∙◌, Option, none, some, arith,
  if◌then◌else◌, text_iff, List, [], ◌∷◌, ◌++◌, All, ltb, is_empty, if_both,
}
use iot_dev_sys.Common.Int.{ℤ, pos_part, ltb_ℤ, ◌-ℤ◌}
use iot_dev_sys.Common.Text.{append, append_assoc, concat, lacks}
use iot_dev_sys.Api.Parse.{newline, lines, take}
use iot_dev_sys.Common.Compare.{cons-eq}
use iot_dev_sys.Json.{seek, strip, after}
use iot_dev_sys.Json.Fields.{quote}
use iot_dev_sys.Json.Digits.{until-mark}
use iot_dev_sys.Log.{
  FileSystem, LogManager, Level, debug, info, warn, error_level, level_str, rank, base_path,
  rotated, is_full, write, log_line, json_escape, trace_part, line_pieces,
}
use iot_dev_sys.Log.Recent.{
  is_recent, recent_lines, scan_files, rotated_files, join_lines, export_recent, hours_of,
}
use iot_dev_sys.Log.Files.{IsLawful}
use iot_dev_sys.Log.Write.{write_fits}
use iot_dev_sys.Log.Escape.{lacks-append, json_escape-lacks}
use iot_dev_sys.Log.Rotate.{base_other, other_false}

-- Lines as they stand in a file.
unfoldable pub file_of : List String → String
unfolding append
file_of [] = ""
file_of (l ∷ ls) = append l (append "\n" (file_of ls))

abbrev pub OneLine : String → Type 0
OneLine l = lacks newline l ≡ true

lines_front : (l t : String) → OneLine l → lines (append l (append "\n" t)) ≡ l ∷ lines t
unfolding lines append lacks
lines_front String.[] t h = refl
lines_front (String.◌∷◌ c l) t h = ground (arith, lines_front l t)

lines-file_of : (ls : List String) → All OneLine ls → lines (file_of ls) ≡ ls
unfolding lines file_of
lines-file_of [] h = refl
lines-file_of (l ∷ ls) h = lines_front l (file_of ls) h.0 ∙ ap (◌∷◌ l) (lines-file_of ls h.1)

file_of_end :
    (ls : List String) (l : String) → append (file_of ls) (append l "\n") ≡ file_of (ls ++ l ∷ [])
unfolding file_of append
file_of_end [] l = refl
file_of_end (k ∷ ls) l =
    append_assoc k (append "\n" (file_of ls)) (append l "\n")
    ∙ ap (append k) (ap (append "\n") (file_of_end ls l))

plain_level : (l : Level) → lacks newline (level_str l) ≡ true
unfolding lacks
plain_level debug = refl
plain_level info = refl
plain_level warn = refl
plain_level error_level = refl

trace_part-OneLine : (t : String) → OneLine (trace_part t)
unfolding trace_part concat lacks
trace_part-OneLine t =
    if_both OneLine (is_empty t) "" (append ",\"trace_id\":\"" (append (json_escape t) "\"")) refl (
      lacks-append newline ",\"trace_id\":\"" (append (json_escape t) "\"") refl
        (lacks-append newline (json_escape t) "\"" (json_escape-lacks t) refl))

concat-OneLine : (ss : List String) → All OneLine ss → OneLine (concat ss)
unfolding concat
concat-OneLine [] h = unfold lacks in refl
concat-OneLine (s ∷ ss) h = lacks-append newline s (concat ss) h.0 (concat-OneLine ss h.1)

-- What is written is one line, whatever the name and the message are.
log_line-OneLine :
    (m : LogManager) (ts : String) (level : Level) (name msg : String)
    → OneLine ts
    → OneLine (log_line m ts level name msg)
unfolding log_line lacks
log_line-OneLine m ts level name msg h = concat-OneLine (line_pieces m ts level name msg) (
  refl,
  (
    h,
    (
      refl,
      (
        plain_level level,
        (
          refl,
          (
            json_escape-lacks name,
            (refl, (json_escape-lacks msg, (refl, (trace_part-OneLine m.trace_id, (refl, tt))))),
          ),
        ),
      ),
    ),
  ),
)

abbrev pub in_time : (String → Option ℤ) → ℤ → String → Bool
in_time read_time cutoff ts = elim (read_time (take 19 ts)) [
  | none ↦ false
  | some epoch ↦ not (ltb_ℤ epoch cutoff)
]

-- The time of a line is the one it was written with.
is_recent-log_line :
    (read_time : String → Option ℤ) (cutoff : ℤ) (m : LogManager) (ts : String) (level : Level)
    (name msg : String)
    → lacks quote ts ≡ true
    → is_recent read_time cutoff (log_line m ts level name msg) ≡ in_time read_time cutoff ts
unfolding is_recent log_line concat append after seek strip
is_recent-log_line read_time cutoff m ts level name msg h =
    rw (until-mark quote ts _ h) (rw cons-eq refl)

recent_lines-append :
    (read_time : String → Option ℤ) (cutoff : ℤ) (ls : List String) (l : String)
    → recent_lines read_time cutoff (ls ++ l ∷ [])
      ≡ recent_lines read_time cutoff ls ++ (if is_recent read_time cutoff l then l ∷ [] else [])
unfolding recent_lines
recent_lines-append read_time cutoff [] l = refl
recent_lines-append read_time cutoff (k ∷ ls) l =
    ground (arith, recent_lines-append read_time cutoff ls l)

All-end : (ls : List String) (l : String) → All OneLine ls → OneLine l → All OneLine (ls ++ l ∷ [])
All-end [] l h k = (k, tt)
All-end (j ∷ ls) l h k = (h.0, All-end ls l h.1 k)

no_rotated_files :
    (F : FileSystem) (base : String) (i n : ℕ) (s : F.State)
    → ((j : ℕ) → F.read s (rotated base j) ≡ none)
    → rotated_files F base i n s ≡ []
unfolding rotated_files
no_rotated_files F base i zero s h = refl
no_rotated_files F base i (suc n) s h = rw (h i) (no_rotated_files F base (suc i) n s h)

scan_current :
    (F : FileSystem) (read_time : String → Option ℤ) (cutoff : ℤ) (base : String) (n : ℕ)
    (s : F.State) (ls : List String)
    → F.read s base ≡ some (file_of ls)
    → All OneLine ls
    → ((i : ℕ) → F.read s (rotated base i) ≡ none)
    → scan_files F read_time cutoff (base ∷ rotated_files F base 0 n s) s
      ≡ recent_lines read_time cutoff ls
unfolding scan_files
scan_current F read_time cutoff base n s ls text whole fresh =
    rw (no_rotated_files F base 0 n s fresh) (
      rw (text, scan_files)
        (append-nil (recent_lines read_time cutoff (lines (file_of ls)))
          ∙ ap (recent_lines read_time cutoff) (lines-file_of ls whole)))

-- After a line was written that does not make the file too long, the exported text is the array of the
-- lines of the file that are recent, in their order, with the new line at the end if its time is not
-- before the cutoff. The file holds whole lines, there is no rotated file, and the text of the time
-- has no quote and no newline.
pub export_recent-write :
    (F : FileSystem) (L : IsLawful F) (read_time : String → Option ℤ) (size : String → ℕ)
    (now hours : ℤ) (level : Level) (name msg ts : String) (m : LogManager) (s : F.State)
    (ls : List String)
    → ltb (rank level) (rank m.min_level) ≡ false
    → m.is_open ≡ true
    → m.current_file_path ≡ base_path m.log_dir
    → is_full F size m
        (F.write_end s m.current_file_path (append (log_line m ts level name msg) "\n"))
      ≡ false
    → F.read s m.current_file_path ≡ some (file_of ls)
    → All OneLine ls
    → ((i : ℕ) → F.read s (rotated (base_path m.log_dir) i) ≡ none)
    → lacks newline ts ≡ true
    → lacks quote ts ≡ true
    → (let (n, t) = write F size level name msg ts m s in export_recent F read_time now hours n t)
      ≡ concat (
          "["
          ∷ join_lines (
              recent_lines read_time (now -ℤ hours_of hours) ls
              ++ (if in_time read_time (now -ℤ hours_of hours) ts
                  then log_line m ts level name msg ∷ []
                  else []))
          ∷ "]"
          ∷ [])
unfolding export_recent
export_recent-write F L read_time size now hours level name msg ts m s ls above opened path fits old
      whole fresh plain unquoted =
    let base = base_path m.log_dir in
    let line = log_line m ts level name msg in
    let w = F.write_end s m.current_file_path (append line "\n") in
    ap (λ (r : LogManager × F.State). export_recent F read_time now hours r.0 r.1)
      (write_fits F size level name msg ts m s above opened fits)
    ∙ ap (λ (k : List String). concat ("[" ∷ join_lines k ∷ "]" ∷ []))
        (scan_current F read_time (now -ℤ hours_of hours) base (pos_part m.max_files) w
            (ls ++ line ∷ [])
            (L.read-write_end s m.current_file_path (append line "\n") base
              ∙ rw ((text_iff m.current_file_path base).1 path)
                  (rw old (ap some (file_of_end ls line))))
            (All-end ls line whole (log_line-OneLine m ts level name msg plain))
            (λ i.
              L.read-write_end s m.current_file_path (append line "\n") (rotated base i)
              ∙ rw path (rw (other_false base (rotated base i) (base_other base i)) (fresh i)))
          ∙ recent_lines-append read_time (now -ℤ hours_of hours) ls line
          ∙ ap
              (λ (b : Bool).
                recent_lines read_time (now -ℤ hours_of hours) ls ++ (if b then line ∷ [] else []))
              (is_recent-log_line read_time (now -ℤ hours_of hours) m ts level name msg unquoted))
